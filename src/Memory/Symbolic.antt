-- ===== src/Memory/Symbolic.antt =====
-- Marking a region of memory as symbolic.
use sym_cc_modified.Base.{
  ℕ, ◌+◌, ◌-◌, ◌≡◌, refl, ◌∙◌, true, Option, some, arith, ◌<◌, word_size, ltb, if◌then◌else◌, add64,
}
use sym_cc_modified.Builder.{Builder}
use sym_cc_modified.Shadow.{Pages}
use sym_cc_modified.Shadow.Pages.{shadow_at, Extends-shadow_at}
use sym_cc_modified.Shadow.Ranges.Copy.{is_within}
use sym_cc_modified.Shadow.Ranges.Fill.{generate_view}
use sym_cc_modified.Shadow.Asserted.{HoldsBytes, IsByte, Extends-HoldsBytes, generate-HoldsBytes}
use sym_cc_modified.Memory.{int_limit, write_range, make_symbolic}
use sym_cc_modified.Memory.Moves.{write_range-IsValid}

module _ {E : Type 0} (b : Builder E) (get_input_byte : ℕ → ℕ → Option E) (memory : ℕ → ℕ) where
  -- For a region of less than 2 ^ 31 bytes that does not wrap around, `_sym_make_symbolic`
  -- succeeds, gives byte `i` of the region the expression of input byte `input_offset + i`, made
  -- with the concrete value at that address, and changes the shadow of no other byte; if the
  -- expressions of input bytes and those of the shadow all represent bytes, so do those of the
  -- shadow that is left.
  pub make_symbolic_view :
      (pages : Pages E) (start byte_length input_offset : ℕ)
      → start + byte_length < word_size
      → byte_length < int_limit
      → (later : Pages E) × (make_symbolic get_input_byte memory pages start byte_length
            input_offset
          ≡ some later)
        × ((c : ℕ)
            → shadow_at later c ≡ (
                if is_within start byte_length c
                then get_input_byte
                    (add64 input_offset (c - start))
                    (memory (add64 start (c - start)))
                else shadow_at pages c))
        × (((i v : ℕ) → IsByte b (get_input_byte i v)) → HoldsBytes b pages → HoldsBytes b later)
  unfolding make_symbolic
  make_symbolic_view pages a n input_offset q small =
      let (valid, more) = write_range-IsValid pages a n in
      let counted : ltb n int_limit ≡ true = ground arith in
      let byte_of : ℕ → Option E =
        λ i. get_input_byte (add64 input_offset i) (memory (add64 a i)) in
      (
        _,
        rw counted refl,
        (λ c.
            let from_zero : 0 + (c - a) ≡ c - a = omega arith in
            generate_view byte_of n 0 (write_range pages a n).0 (write_range pages a n).1 a q valid
              c
            ∙ rw (Extends-shadow_at more c, from_zero)),
        (λ bytes byte.
            generate-HoldsBytes b byte_of n 0 (write_range pages a n).0 (write_range pages a n).1
              (λ j. bytes (add64 input_offset j) (memory (add64 a j)))
              (Extends-HoldsBytes b more byte)),
      )
