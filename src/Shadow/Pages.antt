-- ===== src/Shadow/Pages.antt =====
-- The shadow as a map from addresses to expressions.
use sym_cc_modified.Base.{
  ℕ, ◌+◌, ◌≡◌, refl, ◌∙◌, true, false, ◌&&◌, Option, none, some, [], ◌∷◌, ◌==◌, if◌then◌else◌,
  arith, ==_iff, Bool-cases, inl, inr, ◌<◌, word_size, add64, sub64,
}
use sym_cc_modified.Shadow.{
  is_present, Pages, ShadowPointer, page_start, page_offset, find_page, load, store, get_shadow,
  get_or_create_shadow, WriteIterator, write_begin, write_next, write_prev, enter_page,
  advance_pointer, retreat_pointer,
}

abbrev pub pointer_of : ℕ → ShadowPointer
pointer_of address = record { page = page_start address; index = page_offset address }

module _ {E : Type 0} where
  -- The expression of the byte at an address.
  unfoldable pub shadow_at : Pages E → ℕ → Option E
  shadow_at pages address = load pages (pointer_of address)

  pub shadow_at_lem :
      (pages : Pages E) (address : ℕ) → shadow_at pages address ≡ load pages (pointer_of address)
  unfolding shadow_at
  shadow_at_lem pages address = refl

module _ {E : Type 0} (p : ShadowPointer) (e : Option E) where
  pub is_present-store :
      (pages : Pages E) (page : ℕ) → is_present (store pages p e) page ≡ is_present pages page
  unfolding is_present store find_page
  is_present-store [] page = refl
  is_present-store ((start, region) ∷ pages) page = ground (arith, is_present-store pages page)

  load-store :
      (pages : Pages E) (q : ShadowPointer)
      → is_present pages p.page ≡ true
      → load (store pages p e) q
        ≡ (if q.page == p.page && q.index == p.index then e else load pages q)
  unfolding is_present store load find_page
  load-store [] q h = cc
  load-store ((start, region) ∷ pages) q h = ground (arith, load-store pages q)

same_byte : (a b : ℕ) → page_start a ≡ page_start b → page_offset a ≡ page_offset b → a ≡ b
same_byte a b h k = omega arith

-- `later` has the pages of `pages` with the same expressions, and perhaps more pages, empty ones.
pub record Extends {E : Type 0} (pages later : Pages E) : Type 0 where
  pub kept : (page : ℕ) → is_present pages page ≡ true → is_present later page ≡ true
  pub same : (q : ShadowPointer) → load later q ≡ load pages q

-- A pointer into a page that is there.
pub record IsValid {E : Type 0} (pages : Pages E) (it : WriteIterator) (address : ℕ) : Type 0 where
  pub at : it.address ≡ address
  pub points : it.shadow ≡ pointer_of address
  pub there : is_present pages (page_start address) ≡ true

module _ {E : Type 0} where
  pub shadow_at-store :
      (pages : Pages E) (a b : ℕ) (e : Option E)
      → is_present pages (page_start a) ≡ true
      → shadow_at (store pages (pointer_of a) e) b ≡ (if b == a then e else shadow_at pages b)
  unfolding shadow_at
  shadow_at-store pages a b e h =
      load-store (pointer_of a) e pages (pointer_of b) h ∙ ground (arith, same_byte b a)

  pub shadow_at-absent :
      (pages : Pages E) (a : ℕ) → is_present pages (page_start a) ≡ false → shadow_at pages a ≡ none
  unfolding shadow_at load is_present
  shadow_at-absent pages a h = ground arith

  pub get_shadow_lem :
      (pages : Pages E) (a : ℕ)
      → get_shadow pages a ≡ (if is_present pages (page_start a) then some (pointer_of a) else none)
  unfolding get_shadow is_present
  get_shadow_lem pages a = ground arith

  pub get_or_create_shadow-pointer :
      (pages : Pages E) (a : ℕ) → (get_or_create_shadow pages a).1 ≡ pointer_of a
  unfolding get_or_create_shadow
  get_or_create_shadow-pointer pages a = ground arith

  pub get_or_create_shadow-is_present :
      (pages : Pages E) (a : ℕ) → is_present (get_or_create_shadow pages a).0 (page_start a) ≡ true
  unfolding get_or_create_shadow is_present find_page
  get_or_create_shadow-is_present pages a = ground arith

  pub get_or_create_shadow-Extends :
      (pages : Pages E) (a : ℕ) → Extends pages (get_or_create_shadow pages a).0
  unfolding get_or_create_shadow is_present find_page load
  get_or_create_shadow-Extends pages a = record {
    kept = λ page h. ground arith;
    same = λ q. ground arith;
  }

  pub Extends-refl : (pages : Pages E) → Extends pages pages
  Extends-refl pages = record { kept = λ page h. h; same = λ q. refl }

  pub Extends-trans :
      {pages later last : Pages E} → Extends pages later → Extends later last → Extends pages last
  Extends-trans x y = record {
    kept = λ page h. y.kept page (x.kept page h);
    same = λ q. y.same q ∙ x.same q;
  }

  pub Extends-IsValid :
      {pages later : Pages E} {it : WriteIterator} {a : ℕ}
      → Extends pages later
      → IsValid pages it a
      → IsValid later it a
  Extends-IsValid {a} x v = record {
    at = v.at;
    points = v.points;
    there = x.kept (page_start a) v.there;
  }

  pub Extends-shadow_at :
      {pages later : Pages E}
      → Extends pages later
      → (a : ℕ) → shadow_at later a ≡ shadow_at pages a
  unfolding shadow_at
  Extends-shadow_at x a = x.same (pointer_of a)

module _ {E : Type 0} where
  pub write_begin-IsValid :
      (pages : Pages E) (a : ℕ)
      → IsValid (write_begin pages a).0 (write_begin pages a).1 a
        × Extends pages (write_begin pages a).0
  unfolding write_begin
  write_begin-IsValid pages a = (
    record {
      at = refl;
      points = get_or_create_shadow-pointer pages a;
      there = get_or_create_shadow-is_present pages a;
    },
    get_or_create_shadow-Extends pages a,
  )

  enter_page-IsValid :
      (pages : Pages E) (previous address : ℕ) (shadow : ShadowPointer)
      → is_present pages (page_start previous) ≡ true
      → (page_start address ≡ page_start previous → shadow ≡ pointer_of address)
      → IsValid
          (enter_page pages previous address shadow).0
          (enter_page pages previous address shadow).1
          address
        × Extends pages (enter_page pages previous address shadow).0
  unfolding enter_page
  enter_page-IsValid pages previous address shadow there points =
      elim (Bool-cases (page_start address == page_start previous)) [
        | inl near ↦
            let one_page : page_start address ≡ page_start previous =
              (==_iff (page_start address) (page_start previous)).0 near in
            rw near (
              record { at = refl; points = points one_page; there = rw one_page there },
              Extends-refl pages,
            )
        | inr far ↦ rw far (
          record {
            at = refl;
            points = get_or_create_shadow-pointer pages address;
            there = get_or_create_shadow-is_present pages address;
          },
          get_or_create_shadow-Extends pages address,
        )
      ]

  -- The step up of a valid write iterator, to an address that does not wrap around, gives a valid
  -- iterator at the next address and keeps the shadow of all bytes, also where it creates a page.
  pub write_next-IsValid :
      (pages : Pages E) (it : WriteIterator) (a : ℕ)
      → a + 1 < word_size
      → IsValid pages it a
      → IsValid (write_next pages it).0 (write_next pages it).1 (a + 1)
        × Extends pages (write_next pages it).0
  unfolding write_next
  write_next-IsValid pages it a small v =
      let step : add64 it.address 1 ≡ a + 1 = omega (arith, v.at) in
      rw (step, v.at, v.points)
        (enter_page-IsValid pages a (a + 1) (advance_pointer (pointer_of a)) v.there
          (λ h. ground arith))

  -- The step down of a valid write iterator, from an address above zero, gives a valid iterator
  -- at the address before and keeps the shadow of all bytes, also where it creates a page.
  pub write_prev-IsValid :
      (pages : Pages E) (it : WriteIterator) (a : ℕ)
      → a + 1 < word_size
      → IsValid pages it (a + 1)
      → IsValid (write_prev pages it).0 (write_prev pages it).1 a
        × Extends pages (write_prev pages it).0
  unfolding write_prev
  write_prev-IsValid pages it a small v =
      let step : sub64 it.address 1 ≡ a = omega (arith, v.at) in
      rw (step, v.at, v.points)
        (enter_page-IsValid pages (a + 1) a (retreat_pointer (pointer_of (a + 1))) v.there
          (λ h. ground arith))
