-- ===== src/Memory/RoundTrip.antt =====
-- What is written to memory is read back.
use sym_cc_modified.Base.{
  ℕ, ◌+◌, ◌-◌, ◌*◌, ◌≡◌, inl, inr, sym, ap, ◌∙◌, Bool, true, Option, none, some, if◌then◌else◌,
  arith, ◌<◌, word_size, Bool-cases, subst,
}
use sym_cc_modified.Builder.{Builder, Meaning}
use sym_cc_modified.Bytes.Slices.{bytes}
use sym_cc_modified.Aggregate.Extraction.{in_order}
use sym_cc_modified.Aggregate.RoundTrip.{value_of_bytes, in_order_twice}
use sym_cc_modified.Shadow.{Pages}
use sym_cc_modified.Shadow.Pages.{shadow_at}
use sym_cc_modified.Shadow.Ranges.Copy.{is_within}
use sym_cc_modified.Shadow.Ranges.Fill.{IsConcrete}
use sym_cc_modified.Memory.{write_memory, read_memory}
use sym_cc_modified.Memory.Access.{IsByteShadow, read_memory_lem}
use sym_cc_modified.Memory.Writes.{
  written, write_memory_view, written-bytes, extract_shadow-HasBytes,
}

module _ {E : Type 0} {b : Builder E} (m : Meaning b) (memory : ℕ → ℕ) where
  module _ (pages : Pages E) (a n : ℕ) (e : E) (little : Bool) (pos : 0 < n) (q : a + n < word_size)
      (w : b.bits_helper e ≡ 8 * n) (small : 8 * n < word_size)
      (byte : IsByteShadow m memory pages) where
    -- The state after a write of `e`, and what a read of the region gives there.
    pub record Stored (later : Pages E) : Type 0 where
      pub view :
          (c : ℕ)
          → shadow_at later c
            ≡ (if is_within a n c then written b (some e) n little (c - a) else shadow_at pages c)

    piece_at :
        (later : Pages E)
        → Stored later
        → (c : ℕ) → is_within a n c ≡ true
        → (x : E) × (shadow_at later c ≡ some x) × (b.bits_helper x ≡ 8)
    piece_at later s c inside =
        let (x, piece, shape) =
          extract_shadow-HasBytes m e n (c - a) little w small (ground arith) in
        (x, s.view c ∙ rw inside piece, shape.width)

    Stored-IsByteShadow : (later : Pages E) → Stored later → IsByteShadow m memory later
    Stored-IsByteShadow later s c x h = elim (Bool-cases (is_within a n c)) [
      | inl inside ↦
          let (y, there, width) = piece_at later s c inside in
          let same : some y ≡ some x = sym there ∙ h in subst (λ t. b.bits_helper t ≡ 8) (cc) width
      | inr outside ↦ byte c x (sym (s.view c ∙ rw outside) ∙ h)
    ]

    read-Stored :
        (later : Pages E)
        → Stored later
        → (r : E) × (read_memory b memory later a n little ≡ some (some r))
          × (b.bits_helper r ≡ b.bits_helper e)
          × (m.value r ≡ m.value e)
    read-Stored later s =
        let (x, there, width) = piece_at later s a (ground arith) in
        let symbolic : ¬ IsConcrete later a n =
          λ h. absurd (none_is_some (sym (h a (omega arith) (omega arith)) ∙ there)) in
        let (r, made, shape) =
          (read_memory_lem m memory later a n little pos q (Stored-IsByteShadow later s)).1
            symbolic in
        let same : bytes m r ≡ bytes m e =
          shape.content
          ∙ ap (in_order little) (written-bytes m memory e a n little w q small pages later s.view)
          ∙ in_order_twice little (bytes m e) in
        (r, made, omega (arith, shape.width), value_of_bytes m r e n shape.width w same)
      where
        none_is_some : {x : E} → ◌≡◌ {A = Option E} none (some x) → ⊥
        none_is_some h = cc

    -- A write of an expression of `n` bytes, `n` not zero and the region not wrapping around,
    -- into a shadow of byte expressions succeeds and keeps the shadow one of byte expressions,
    -- and a read of the region in the same byte order then gives an expression of the same width
    -- and value.
    pub read_memory-write_memory :
        (later : Pages E) × (write_memory b pages a n (some e) little ≡ some later)
        × IsByteShadow m memory later
        × ((r : E) × (read_memory b memory later a n little ≡ some (some r))
            × (b.bits_helper r ≡ b.bits_helper e)
            × (m.value r ≡ m.value e))
    read_memory-write_memory =
        let (later, made, view) = write_memory_view b pages a n (some e) little pos q in
        let s : Stored later = record { view = view } in
        (later, made, Stored-IsByteShadow later s, read-Stored later s)
