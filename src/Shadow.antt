-- ===== src/Shadow.antt =====
-- runtime/Shadow.h: the shadow of the program's memory, page by page, and the iterators that walk
-- over it. A shadow pointer is a page's region with an index; a null pointer is `none`.
pub mod Pages
pub mod Reading
pub mod Ranges
pub mod Asserted
use mathlib.Core.Option
use sym_cc_modified.Base.{
  ℕ, zero, suc, ◌+◌, ◌-◌, ◌*◌, ◌/◌, ◌%◌, Bool, true, false, ◌&&◌, not, Option, none, some, List, [],
  ◌∷◌, ◌==◌, if◌then◌else◌, add64, sub64,
}

abbrev pub page_size : ℕ
page_size = 4096

-- `addr & ~(kPageSize - 1)`
abbrev pub page_start : ℕ → ℕ
page_start address = address / page_size * page_size

-- `addr & (kPageSize - 1)`
abbrev pub page_offset : ℕ → ℕ
page_offset address = address % page_size

-- The region that is allocated for a page: an expression, or null, for each byte.
abbrev pub Region : Type 0 → Type 0
Region E = ℕ → Option E

-- `g_shadow_pages`. A page is entered once and never taken out.
abbrev pub Pages : Type 0 → Type 0
Pages E = List (ℕ × Region E)

-- A pointer into the region of a page.
pub record ShadowPointer : Type 0 where
  pub page : ℕ
  pub index : ℕ

-- `ReadShadowIterator`
pub record ReadIterator : Type 0 where
  pub address : ℕ
  pub shadow : Option ShadowPointer

-- `WriteShadowIterator`, whose pointer is never null.
pub record WriteIterator : Type 0 where
  pub address : ℕ
  pub shadow : ShadowPointer

abbrev pub advance_pointer : ShadowPointer → ShadowPointer
advance_pointer p = record p { index = p.index + 1 }

-- Behind the start of a region the pointer is dead; the iterators compute it anew before use.
abbrev pub retreat_pointer : ShadowPointer → ShadowPointer
retreat_pointer p = record p { index = p.index - 1 }

module _ {E : Type 0} where
  unfoldable pub find_page : Pages E → ℕ → Option (Region E)
  find_page [] page = none
  find_page ((start, region) ∷ pages) page =
      if start == page then some region else find_page pages page

  -- `g_shadow_pages.count(page)`
  unfoldable pub is_present : Pages E → ℕ → Bool
  is_present pages page = elim (find_page pages page) [ none ↦ false | some region ↦ true ]

  -- `*shadow`, at a pointer that is not null.
  unfoldable pub load : Pages E → ShadowPointer → Option E
  unfolding find_page
  load pages p = elim (find_page pages p.page) [ none ↦ none | some region ↦ region p.index ]

  -- `*shadow = expr`
  pub store : Pages E → ShadowPointer → Option E → Pages E
  store [] p expr = []
  store ((start, region) ∷ pages) p expr =
      if start == p.page
      then (start, (λ i. if i == p.index then expr else region i)) ∷ pages
      else (start, region) ∷ store pages p expr

  pub get_shadow : Pages E → ℕ → Option ShadowPointer
  get_shadow pages address = elim (find_page pages (page_start address)) [
    | none ↦ none
    | some region ↦ some (record { page = page_start address; index = page_offset address })
  ]

  -- A page without shadow gets a region of null expressions.
  pub get_or_create_shadow : Pages E → ℕ → Pages E × ShadowPointer
  unfolding get_shadow
  get_or_create_shadow pages address = elim (get_shadow pages address) [
    | some shadow ↦ (pages, shadow)
    | none ↦ (
      (page_start address, (λ i. none)) ∷ pages,
      record { page = page_start address; index = page_offset address },
    )
  ]

  pub read_begin : Pages E → ℕ → ReadIterator
  read_begin pages address = record { address = address; shadow = get_shadow pages address }

  -- `ReadShadowIterator::operator++`
  pub read_next : Pages E → ReadIterator → ReadIterator
  read_next pages it =
      let address = add64 it.address 1 in
      record {
        address = address;
        shadow =
            if page_start address == page_start it.address
            then Option.map advance_pointer it.shadow
            else get_shadow pages address;
      }

  -- `ReadShadowIterator::operator--`
  pub read_prev : Pages E → ReadIterator → ReadIterator
  read_prev pages it =
      let address = sub64 it.address 1 in
      record {
        address = address;
        shadow =
            if page_start address == page_start it.address
            then Option.map retreat_pointer it.shadow
            else get_shadow pages address;
      }

  -- What `ReadShadowIterator::operator*` returns where its assertion holds. Shadow.Asserted has it
  -- with the assertion.
  pub read_value : Pages E → ReadIterator → Option E
  read_value pages it = elim it.shadow [ none ↦ none | some shadow ↦ load pages shadow ]

  -- The page of the new address is shadowed, if the iterator moved to another page.
  pub enter_page : Pages E → ℕ → ℕ → ShadowPointer → Pages E × WriteIterator
  enter_page pages previous address shadow =
      if page_start address == page_start previous
      then (pages, record { address = address; shadow = shadow })
      else let (pages', shadow') = get_or_create_shadow pages address in
        (pages', record { address = address; shadow = shadow' })

  pub write_begin : Pages E → ℕ → Pages E × WriteIterator
  write_begin pages address =
      let (pages', shadow) = get_or_create_shadow pages address in
      (pages', record { address = address; shadow = shadow })

  -- `WriteShadowIterator::operator++`
  pub write_next : Pages E → WriteIterator → Pages E × WriteIterator
  write_next pages it = enter_page pages it.address (add64 it.address 1) (advance_pointer it.shadow)

  -- `WriteShadowIterator::operator--`
  pub write_prev : Pages E → WriteIterator → Pages E × WriteIterator
  write_prev pages it = enter_page pages it.address (sub64 it.address 1) (retreat_pointer it.shadow)
