-- ===== src/Shadow/Ranges/Fill.antt =====
-- Writes to every byte of a range, and the test that a range is concrete.
use sym_cc_modified.Base.{
  ℕ, zero, suc, ◌+◌, ◌-◌, ◌≡◌, ◌↔◌, inl, inr, refl, sym, ap, ◌∙◌, true, Option, none, some, ◌==◌,
  if◌then◌else◌, arith, ◌<◌, ◌≤◌, word_size, Bool-cases, ==_iff,
}
use sym_cc_modified.Shadow.{
  Pages, ReadIterator, WriteIterator, store, read_next, read_value, write_next,
}
use sym_cc_modified.Shadow.Pages.{shadow_at, IsValid}
use sym_cc_modified.Shadow.Reading.{Reads, read_value_lem, read_next-Reads, Reads-keep}
use sym_cc_modified.Shadow.Ranges.{generate, fill, all_null, is_null}
use sym_cc_modified.Shadow.Ranges.Copy.{is_within, write-step}

module _ {E : Type 0} where
  -- A loop that writes over a range that does not wrap around, from a valid iterator, gives each
  -- byte of the range the value of its index and changes the shadow of no other byte.
  pub generate_view :
      (f : ℕ → Option E) (n i : ℕ) (pages : Pages E) (first : WriteIterator) (to : ℕ)
      → to + n < word_size
      → IsValid pages first to
      → (c : ℕ)
      → shadow_at (generate f n i pages first) c
        ≡ (if is_within to n c then f (i + (c - to)) else shadow_at pages c)
  unfolding generate
  generate_view f zero i pages first to q v c = ground arith
  generate_view f (suc n) i pages first to q v c =
      let stored : Pages E = store pages first.shadow (f i) in
      let (wrote, valid) = write-step pages first to (f i) (omega arith) v in
      generate_view f n (i + 1) (write_next stored first).0 (write_next stored first).1 (to + 1)
        (omega arith) valid c
      ∙ first_and_rest (shadow_at pages) (shadow_at (write_next stored first).0) n i to c wrote.view
    where
      first_and_rest :
          (old new : ℕ → Option E) (n i to c : ℕ)
          → ((d : ℕ) → new d ≡ (if d == to then f i else old d))
          → (if is_within (to + 1) n c then f (i + 1 + (c - (to + 1))) else new c)
            ≡ (if is_within to (suc n) c then f (i + (c - to)) else old c)
      first_and_rest old new n i to c h = elim (Bool-cases (is_within (to + 1) n c)) [
        | inl inside ↦
            let place : i + 1 + (c - (to + 1)) ≡ i + (c - to) = ground arith in
            rw place (ground (arith, h c))
        | inr outside ↦
            let place : c ≡ to → i ≡ i + (c - to) = λ e. omega arith in
            ground (arith, h c, λ (e : c ≡ to). ap f (place e))
      ]

  pub fill_view :
      (value : Option E) (n : ℕ) (pages : Pages E) (first : WriteIterator) (to : ℕ)
      → to + n < word_size
      → IsValid pages first to
      → (c : ℕ)
      → shadow_at (fill value n pages first) c
        ≡ (if is_within to n c then value else shadow_at pages c)
  unfolding fill
  fill_view value n pages first to q v c = generate_view (λ i. value) n 0 pages first to q v c

  -- Every byte of the range is concrete.
  abbrev pub IsConcrete : Pages E → ℕ → ℕ → Type 0
  IsConcrete pages a n = (c : ℕ) → a ≤ c → c < a + n → shadow_at pages c ≡ none

  pub is_null_iff : (o : Option E) → (is_null o ≡ true) ↔ (o ≡ none)
  unfolding is_null
  is_null_iff none = ((λ h. refl), (λ h. refl))
  is_null_iff (some e) = ((λ h. cc), (λ h. cc))

  -- For a range that does not wrap around and an iterator that reads its first byte, the test
  -- that walks over the range holds exactly when no byte of the range has an expression.
  pub all_null_iff :
      (n : ℕ) (pages : Pages E) (first : ReadIterator) (a : ℕ)
      → a + n < word_size
      → Reads pages first a a (a + n)
      → (all_null n pages first ≡ true) ↔ IsConcrete pages a n
  unfolding all_null
  all_null_iff zero pages first a q r = ((λ h c x y. absurd (omega arith)), (λ h. refl))
  all_null_iff (suc n) pages first a q r =
      let value : read_value pages first ≡ shadow_at pages a =
        read_value_lem pages first a a (a + suc n) r (omega arith) (omega arith) in
      let next : Reads pages (read_next pages first) (a + 1) (a + 1) (a + 1 + n) =
        Reads-keep (a + 1) (a + 1 + n) (omega arith) (omega arith) (λ c x y. refl)
          (read_next-Reads pages first a a (a + suc n) (omega arith) r) in
      let rest = all_null_iff n pages (read_next pages first) (a + 1) (omega arith) next in
      elim (Bool-cases (is_null (read_value pages first))) [
        | inl null ↦
            let here : shadow_at pages a ≡ none = sym value ∙ (is_null_iff _).0 null in
            rw null (
              (λ h c x y. elim (Bool-cases (c == a)) [
                | inl e ↦ rw ((==_iff c a).0 e) here
                | inr e ↦ rest.0 h c (ground arith) (omega arith)
              ]),
              (λ h. rest.1 (λ c x y. h c (omega arith) (omega arith))),
            )
        | inr symbolic ↦ rw symbolic (
          (λ h. cc),
          (λ h. sym symbolic ∙ (is_null_iff _).1 (value ∙ h a (omega arith) (omega arith))),
        )
      ]
