-- ===== src/Shadow/Reading.antt =====
-- What the read iterators see while other iterators write.
use mathlib.Core.Option
use sym_cc_modified.Base.{
  ℕ, ◌+◌, ◌≡◌, ◌⊎◌, inl, inr, refl, sym, ◌∙◌, Option, none, some, ◌==◌, arith, ==_iff, Bool-cases,
  ◌<◌, ◌≤◌, word_size, add64, sub64,
}
use sym_cc_modified.Shadow.{
  is_present, Pages, ShadowPointer, ReadIterator, page_start, read_begin, read_next, read_prev,
  read_value, get_shadow, advance_pointer, retreat_pointer,
}
use sym_cc_modified.Shadow.Pages.{
  pointer_of, shadow_at, shadow_at_lem, shadow_at-absent, get_shadow_lem,
}

-- The pointer is that of the address; or it is null, and the bytes of the page from `lo` up to
-- `hi` have no expression, though the page may have got a region since the pointer was computed.
abbrev pub Points : {E : Type 0} → Pages E → Option ShadowPointer → ℕ → ℕ → ℕ → Type 0
Points pages shadow a lo hi =
    (shadow ≡ some (pointer_of a))
    ⊎ ((shadow ≡ none)
        × ((c : ℕ) → lo ≤ c → c < hi → page_start c ≡ page_start a → shadow_at pages c ≡ none))

pub record Reads {E : Type 0} (pages : Pages E) (it : ReadIterator) (a lo hi : ℕ) : Type 0 where
  pub at : it.address ≡ a
  pub points : Points pages it.shadow a lo hi

module _ {E : Type 0} where
  get_shadow-Points : (pages : Pages E) (a lo hi : ℕ) → Points pages (get_shadow pages a) a lo hi
  get_shadow-Points pages a lo hi = elim (Bool-cases (is_present pages (page_start a))) [
    | inl there ↦ inl (get_shadow_lem pages a ∙ rw there)
    | inr absent ↦
        inr (get_shadow_lem pages a ∙ rw absent, λ c p q h. shadow_at-absent pages c (rw h absent))
  ]

  pub read_begin-Reads : (pages : Pages E) (a lo hi : ℕ) → Reads pages (read_begin pages a) a lo hi
  unfolding read_begin
  read_begin-Reads pages a lo hi = record { at = refl; points = get_shadow-Points pages a lo hi }

  pub read_value_lem :
      (pages : Pages E) (it : ReadIterator) (a lo hi : ℕ)
      → Reads pages it a lo hi
      → lo ≤ a
      → a < hi
      → read_value pages it ≡ shadow_at pages a
  unfolding read_value
  read_value_lem pages it a lo hi r p q = elim r.points [
    | inl here ↦ rw here (sym (shadow_at_lem pages a))
    | inr (gone, empty) ↦ rw gone (sym (empty a p q refl))
  ]

  moved-Points :
      (pages : Pages E) (shadow moved : Option ShadowPointer) (a c lo hi : ℕ)
      → page_start c ≡ page_start a
      → Points pages shadow a lo hi
      → (shadow ≡ some (pointer_of a) → moved ≡ some (pointer_of c))
      → (shadow ≡ none → moved ≡ none)
      → Points pages moved c lo hi
  moved-Points pages shadow moved a c lo hi near (inl here) f g = inl (f here)
  moved-Points pages shadow moved a c lo hi near (inr (gone, empty)) f g =
      inr (g gone, λ d p q h. empty d p q (h ∙ near))

  pub read_next-Reads :
      (pages : Pages E) (it : ReadIterator) (a lo hi : ℕ)
      → a + 1 < word_size
      → Reads pages it a lo hi
      → Reads pages (read_next pages it) (a + 1) lo hi
  unfolding read_next
  read_next-Reads pages it a lo hi small r =
      let step : add64 it.address 1 ≡ a + 1 = omega (arith, r.at) in
      record {
        at = step;
        points = elim (Bool-cases (page_start (a + 1) == page_start a)) [
          | inl near ↦
              let one_page : page_start (a + 1) ≡ page_start a = (==_iff _ _).0 near in
              rw (step, r.at, near)
                (moved-Points pages it.shadow (Option.map advance_pointer it.shadow) a (a + 1) lo hi
                  one_page r.points (λ h. rw h (ground arith)) (λ h. rw h))
          | inr far ↦ rw (step, r.at, far) (get_shadow-Points pages (a + 1) lo hi)
        ];
      }

  pub read_prev-Reads :
      (pages : Pages E) (it : ReadIterator) (a lo hi : ℕ)
      → a + 1 < word_size
      → Reads pages it (a + 1) lo hi
      → Reads pages (read_prev pages it) a lo hi
  unfolding read_prev
  read_prev-Reads pages it a lo hi small r =
      let step : sub64 it.address 1 ≡ a = omega (arith, r.at) in
      record {
        at = step;
        points = elim (Bool-cases (page_start a == page_start (a + 1))) [
          | inl near ↦
              let one_page : page_start a ≡ page_start (a + 1) = (==_iff _ _).0 near in
              rw (step, r.at, near)
                (moved-Points pages it.shadow (Option.map retreat_pointer it.shadow) (a + 1) a lo hi
                  one_page r.points (λ h. rw h (ground arith)) (λ h. rw h))
          | inr far ↦ rw (step, r.at, far) (get_shadow-Points pages a lo hi)
        ];
      }

  -- Writes outside the bytes that are still to be read do no harm.
  pub Reads-keep :
      {pages later : Pages E} {it : ReadIterator} {a lo hi : ℕ} (lo' hi' : ℕ)
      → lo ≤ lo'
      → hi' ≤ hi
      → ((c : ℕ) → lo' ≤ c → c < hi' → shadow_at later c ≡ shadow_at pages c)
      → Reads pages it a lo hi
      → Reads later it a lo' hi'
  Reads-keep lo' hi' p q same r = record {
    at = r.at;
    points = elim r.points [
      | inl here ↦ inl here
      | inr (gone, empty) ↦
          inr (gone, λ c x y h. same c x y ∙ empty c (omega arith) (omega arith) h)
    ];
  }
