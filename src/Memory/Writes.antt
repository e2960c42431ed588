-- ===== src/Memory/Writes.antt =====
-- Writes of whole expressions, and reads after them, while no assertion on the shadow fails.
use sym_cc_modified.Base.{
  ℕ, ◌+◌, ◌-◌, ◌*◌, ◌≡◌, inl, inr, refl, sym, ap, ◌∙◌, Bool, true, false, ◌&&◌, Option, none, some,
  [], ◌∷◌, ◌==◌, ==_ne, if◌then◌else◌, arith, ◌<◌, word_size, Bool-cases, add64, sub64, mul64,
  length, take, drop,
}
use sym_cc_modified.Builder.{Builder, Meaning}
use sym_cc_modified.Bytes.Slices.{bytes, length-bytes, bytes-extract_helper}
use sym_cc_modified.Bytes.Reversed.{take_one-reverse, length-reverse}
use sym_cc_modified.Aggregate.Extraction.{HasBytes, in_order}
use sym_cc_modified.Shadow.{Pages}
use sym_cc_modified.Shadow.Pages.{shadow_at, Extends-shadow_at}
use sym_cc_modified.Shadow.Ranges.{is_null}
use sym_cc_modified.Shadow.Ranges.Copy.{is_within}
use sym_cc_modified.Shadow.Ranges.Fill.{generate_view, fill_view, is_null_iff}
use sym_cc_modified.Memory.{is_concrete, write_range, extract_shadow, write_expr, write_memory}
use sym_cc_modified.Memory.Moves.{is_concrete_iff, write_range-IsValid}
use sym_cc_modified.Memory.Access.{byte_values, byte_values_of, byte_value-some, one_byte}

module _ {E : Type 0} (b : Builder E) where
  -- What a write leaves in the shadow of each byte: a piece of the expression in the region, or
  -- null where the expression is null, and elsewhere what was there.
  abbrev pub written : Option E → ℕ → Bool → ℕ → Option E
  written none n little i = none
  written (some e) n little i = extract_shadow b e n little i

  write_expr_view :
      (pages : Pages E) (a n : ℕ) (expr : Option E) (little : Bool)
      → a + n < word_size
      → (c : ℕ)
      → shadow_at (write_expr b (write_range pages a n).0 (write_range pages a n).1 n expr little) c
        ≡ (if is_within a n c then written expr n little (c - a) else shadow_at pages c)
  unfolding write_expr
  write_expr_view pages a n none little q c =
      let (valid, more) = write_range-IsValid pages a n in
      fill_view none n (write_range pages a n).0 (write_range pages a n).1 a q valid c
      ∙ rw (Extends-shadow_at more c)
  write_expr_view pages a n (some e) little q c =
      let (valid, more) = write_range-IsValid pages a n in
      let from_zero : 0 + (c - a) ≡ c - a = omega arith in
      generate_view (extract_shadow b e n little) n 0 (write_range pages a n).0
        (write_range pages a n).1 a q valid c
      ∙ rw (Extends-shadow_at more c, from_zero)

  -- A write to a region that has bytes and does not wrap around succeeds, leaves in each byte of
  -- the region a piece of the expression, or null for a null expression, and changes the shadow
  -- of no other byte.
  pub write_memory_view :
      (pages : Pages E) (a n : ℕ) (expr : Option E) (little : Bool)
      → 0 < n
      → a + n < word_size
      → (later : Pages E) × (write_memory b pages a n expr little ≡ some later)
        × ((c : ℕ)
            → shadow_at later c
              ≡ (if is_within a n c then written expr n little (c - a) else shadow_at pages c))
  unfolding write_memory
  write_memory_view pages a n expr little pos q =
      let some_bytes : (n == 0) ≡ false = ==_ne n 0 (λ e. omega arith) in
      elim (Bool-cases (is_null expr && is_concrete pages a n)) [
        | inl fast ↦
            let null : expr ≡ none = (is_null_iff expr).0 (ground arith) in
            let concrete = (is_concrete_iff pages a n q).0 (ground arith) in
            (
              pages,
              rw (some_bytes, fast),
              λ c. rw null (elim (Bool-cases (is_within a n c)) [
                | inl inside ↦ rw (inside, concrete c (ground arith) (ground arith))
                | inr outside ↦ rw outside
              ]),
            )
        | inr slow ↦ (_, rw (some_bytes, slow), write_expr_view pages a n expr little q)
      ]

module _ {E : Type 0} {b : Builder E} (m : Meaning b) where
  pub extract_shadow-HasBytes :
      (e : E) (n i : ℕ) (little : Bool)
      → b.bits_helper e ≡ 8 * n
      → 8 * n < word_size
      → i < n
      → (x : E) × (extract_shadow b e n little i ≡ some x)
        × HasBytes m x 1 (take 1 (drop i (in_order little (bytes m e))))
  unfolding extract_shadow
  extract_shadow-HasBytes e n i true w small h =
      let cut =
        bytes-extract_helper m e (n - 1 - i) 1 i (sub64 (mul64 8 (add64 i 1)) 1) (mul64 8 i)
          (omega arith) (omega arith) (omega arith) (omega arith) in
      (
        _,
        refl,
        record {
          width = cut.0;
          content =
              cut.1
              ∙ sym (take_one-reverse (bytes m e) i (n - 1 - i) (omega (arith, length-bytes m e)));
        },
      )
  extract_shadow-HasBytes e n i false w small h =
      let cut =
        bytes-extract_helper m e i 1 (n - 1 - i) (sub64 (mul64 (sub64 n i) 8) 1)
          (mul64 (sub64 (sub64 n i) 1) 8) (omega arith) (omega arith) (omega arith) (omega arith) in
      (_, refl, record { width = cut.0; content = cut.1 })

  module _ (memory : ℕ → ℕ) (e : E) (a n : ℕ) (little : Bool) (w : b.bits_helper e ≡ 8 * n)
      (q : a + n < word_size) (small : 8 * n < word_size) where
    -- After a write the region's bytes are those of the expression, in the byte order of the write.
    pub written-bytes :
        (pages later : Pages E)
        → ((c : ℕ)
            → shadow_at later c ≡ (
                if is_within a n c then written b (some e) n little (c - a) else shadow_at pages c))
        → byte_values m memory later a n ≡ in_order little (bytes m e)
    written-bytes pages later view =
        byte_values_of m memory later a n (in_order little (bytes m e)) (length-in_order little)
          (λ i h.
            let (x, piece, shape) = extract_shadow-HasBytes e n i little w small h in
            let inside : is_within a n (a + i) ≡ true = ground arith in
            let index : a + i - a ≡ i = omega arith in
            let there : shadow_at later (a + i) ≡ some x =
              view (a + i) ∙ rw (inside, index) piece in
            ap (λ v. v ∷ []) (byte_value-some m memory later (a + i) x there)
            ∙ sym ((one_byte m memory x shape.width).content)
            ∙ shape.content)
      where
        length-in_order : (little : Bool) → length (in_order little (bytes m e)) ≡ n
        length-in_order true = omega (arith, length-reverse (bytes m e), length-bytes m e)
        length-in_order false = omega (arith, length-bytes m e)
