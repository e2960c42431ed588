-- ===== src/Shadow/Asserted.antt =====
-- runtime/Shadow.h: the iterators' reads with their assertion that a shadow expression, where there
-- is one, represents a byte. `none` stands for the assertion that fails.
use sym_cc_modified.Base.{
  ℕ, zero, suc, ◌+◌, ◌≡◌, ◌⊎◌, inl, inr, refl, sym, ◌∙◌, Bool, true, false, Option, none, some, [],
  ◌∷◌, ◌==◌, ==_iff, if◌then◌else◌, ◌>>=◌, arith, Bool-cases,
}
use sym_cc_modified.Builder.{Builder}
use sym_cc_modified.Shadow.{
  Pages, ShadowPointer, ReadIterator, WriteIterator, page_start, find_page, load, store, read_next,
  read_prev, read_value, write_next, write_prev, enter_page,
}
use sym_cc_modified.Shadow.Pages.{Extends, get_or_create_shadow-Extends}
use sym_cc_modified.Shadow.Ranges.{is_null, all_null, copy, copy_backward, generate, fill}

module _ {E : Type 0} (b : Builder E) where
  -- `assert(expr == nullptr || _sym_bits_helper(expr) == 8)`
  unfoldable pub asserted : Option E → Option (Option E)
  asserted none = some none
  asserted (some expr) = if b.bits_helper expr == 8 then some (some expr) else none

  -- `ReadShadowIterator::operator*`
  unfoldable pub checked_value : Pages E → ReadIterator → Option (Option E)
  unfolding asserted
  checked_value pages it = asserted (read_value pages it)

  -- `std::all_of`
  unfoldable pub checked_all_null : ℕ → Pages E → ReadIterator → Option Bool
  unfolding checked_value
  checked_all_null zero pages first = some true
  checked_all_null (suc n) pages first =
      let rest = checked_all_null n pages (read_next pages first) in
      checked_value pages first >>= λ value. if is_null value then rest else some false

  -- `std::copy`
  unfoldable pub checked_copy : ℕ → Pages E → ReadIterator → WriteIterator → Option (Pages E)
  unfolding checked_value
  checked_copy zero pages first result = some pages
  checked_copy (suc n) pages first result = checked_value pages first >>= λ value.
      let (pages', result') = write_next (store pages result.shadow value) result in
      checked_copy n pages' (read_next pages' first) result'

  -- `std::copy_backward`
  unfoldable pub checked_copy_backward :
      ℕ → Pages E → ReadIterator → WriteIterator → Option (Pages E)
  unfolding checked_value
  checked_copy_backward zero pages last result = some pages
  checked_copy_backward (suc n) pages last result =
      let last' = read_prev pages last in
      checked_value pages last' >>= λ value.
      let (pages', result') = write_prev pages result in
      checked_copy_backward n (store pages' result'.shadow value) last' result'

  -- Every expression that a page holds represents a byte.
  abbrev pub HoldsBytes : Pages E → Type 0
  HoldsBytes pages = (q : ShadowPointer) (e : E) → load pages q ≡ some e → b.bits_helper e ≡ 8

  abbrev pub IsByte : Option E → Type 0
  IsByte value = (e : E) → value ≡ some e → b.bits_helper e ≡ 8

  asserted-IsByte : (value : Option E) → IsByte value → asserted value ≡ some value
  unfolding asserted
  asserted-IsByte none byte = refl
  asserted-IsByte (some e) byte = rw ((==_iff (b.bits_helper e) 8).1 (byte e refl)) refl

  pub read_value-IsByte :
      (pages : Pages E) (it : ReadIterator) → HoldsBytes pages → IsByte (read_value pages it)
  unfolding read_value
  read_value-IsByte pages it byte = go it.shadow
    where
      go :
          (p : Option ShadowPointer)
          → IsByte (elim p [ none ↦ none | some shadow ↦ load pages shadow ])
      go none e h = absurd (ground arith)
      go (some shadow) e h = byte shadow e h

  -- Pages with the same expressions, and pages in which a byte's expression is stored.
  pub Extends-HoldsBytes :
      {pages later : Pages E} → Extends pages later → HoldsBytes pages → HoldsBytes later
  Extends-HoldsBytes more byte q e h = byte q e (sym (more.same q) ∙ h)

  load-store_cases :
      (pages : Pages E) (p q : ShadowPointer) (value : Option E)
      → (load (store pages p value) q ≡ value) ⊎ (load (store pages p value) q ≡ load pages q)
  unfolding store load find_page
  load-store_cases [] p q value = inr refl
  load-store_cases ((start, region) ∷ pages) p q value =
      ground (arith, load-store_cases pages p q value)

  pub store-HoldsBytes :
      (pages : Pages E) (p : ShadowPointer) (value : Option E)
      → HoldsBytes pages
      → IsByte value
      → HoldsBytes (store pages p value)
  store-HoldsBytes pages p value byte this q e h = elim (load-store_cases pages p q value) [
    | inl stored ↦ this e (sym stored ∙ h)
    | inr kept ↦ byte q e (sym kept ∙ h)
  ]

  enter_page-HoldsBytes :
      (pages : Pages E) (previous address : ℕ) (shadow : ShadowPointer)
      → HoldsBytes pages
      → HoldsBytes (enter_page pages previous address shadow).0
  unfolding enter_page
  enter_page-HoldsBytes pages previous address shadow byte =
      elim (Bool-cases (page_start address == page_start previous)) [
        | inl same ↦ rw same byte
        | inr other ↦
            rw other (Extends-HoldsBytes (get_or_create_shadow-Extends pages address) byte)
      ]

  pub write_next-HoldsBytes :
      (pages : Pages E) (it : WriteIterator) → HoldsBytes pages → HoldsBytes (write_next pages it).0
  unfolding write_next
  write_next-HoldsBytes pages it byte = enter_page-HoldsBytes pages it.address _ _ byte

  write_prev-HoldsBytes :
      (pages : Pages E) (it : WriteIterator) → HoldsBytes pages → HoldsBytes (write_prev pages it).0
  unfolding write_prev
  write_prev-HoldsBytes pages it byte = enter_page-HoldsBytes pages it.address _ _ byte

  -- No assertion fails where every expression represents a byte.
  pub checked_value_lem :
      (pages : Pages E) (it : ReadIterator)
      → HoldsBytes pages
      → checked_value pages it ≡ some (read_value pages it)
  unfolding checked_value
  checked_value_lem pages it byte =
      asserted-IsByte (read_value pages it) (read_value-IsByte pages it byte)

  pub checked_all_null_lem :
      (n : ℕ) (pages : Pages E) (first : ReadIterator)
      → HoldsBytes pages
      → checked_all_null n pages first ≡ some (all_null n pages first)
  unfolding checked_all_null all_null
  checked_all_null_lem zero pages first byte = refl
  checked_all_null_lem (suc n) pages first byte =
      rw
        (
          checked_value_lem pages first byte,
          checked_all_null_lem n pages (read_next pages first) byte,
        )
        (elim (Bool-cases (is_null (read_value pages first))) [
          | inl null ↦ rw null refl
          | inr some_value ↦ rw some_value refl
        ])

  pub checked_copy_lem :
      (n : ℕ) (pages : Pages E) (first : ReadIterator) (result : WriteIterator)
      → HoldsBytes pages
      → (checked_copy n pages first result ≡ some (copy n pages first result))
        × HoldsBytes (copy n pages first result)
  unfolding checked_copy copy
  checked_copy_lem zero pages first result byte = (refl, byte)
  checked_copy_lem (suc n) pages first result byte =
      let stored = store pages result.shadow (read_value pages first) in
      let stored_byte : HoldsBytes stored =
        store-HoldsBytes pages result.shadow (read_value pages first) byte
          (read_value-IsByte pages first byte) in
      let (done, still) =
        checked_copy_lem n (write_next stored result).0
          (read_next (write_next stored result).0 first) (write_next stored result).1
          (write_next-HoldsBytes stored result stored_byte) in
      (rw (checked_value_lem pages first byte) done, still)

  pub checked_copy_backward_lem :
      (n : ℕ) (pages : Pages E) (last : ReadIterator) (result : WriteIterator)
      → HoldsBytes pages
      → (checked_copy_backward n pages last result ≡ some (copy_backward n pages last result))
        × HoldsBytes (copy_backward n pages last result)
  unfolding checked_copy_backward copy_backward
  checked_copy_backward_lem zero pages last result byte = (refl, byte)
  checked_copy_backward_lem (suc n) pages last result byte =
      let value = read_value pages (read_prev pages last) in
      let moved = write_prev pages result in
      let stored_byte : HoldsBytes (store moved.0 moved.1.shadow value) =
        store-HoldsBytes moved.0 moved.1.shadow value (write_prev-HoldsBytes pages result byte)
          (read_value-IsByte pages (read_prev pages last) byte) in
      let (done, still) =
        checked_copy_backward_lem n (store moved.0 moved.1.shadow value) (read_prev pages last)
          moved.1 stored_byte in
      (rw (checked_value_lem pages (read_prev pages last) byte) done, still)

  pub generate-HoldsBytes :
      (f : ℕ → Option E) (n i : ℕ) (pages : Pages E) (first : WriteIterator)
      → ((j : ℕ) → IsByte (f j))
      → HoldsBytes pages
      → HoldsBytes (generate f n i pages first)
  unfolding generate
  generate-HoldsBytes f zero i pages first bytes byte = byte
  generate-HoldsBytes f (suc n) i pages first bytes byte =
      generate-HoldsBytes f n (i + 1) _ _ bytes
        (write_next-HoldsBytes _ first (store-HoldsBytes pages first.shadow (f i) byte (bytes i)))

  pub fill-HoldsBytes :
      (value : Option E) (n : ℕ) (pages : Pages E) (first : WriteIterator)
      → IsByte value
      → HoldsBytes pages
      → HoldsBytes (fill value n pages first)
  unfolding fill
  fill-HoldsBytes value n pages first this byte =
      generate-HoldsBytes (λ i. value) n 0 pages first (λ j. this) byte
