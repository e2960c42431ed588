-- ===== src/GarbageCollection/Reachability.antt =====
-- What a collection keeps.
use sym_cc_modified.Base.{
  ℕ, zero, suc, ◌+◌, ◌≡◌, ◌⊎◌, ◌↔◌, ◌≤◌, ◌<◌, inl, inr, refl, ap, ◌∙◌, true, ◌&&◌, Option, none,
  some, List, [], ◌∷◌, length, arith, ltb, ◌==◌, ==_iff, Bool-cases,
}
use sym_cc_modified.Shadow.{Pages, page_size, page_start, page_offset, find_page, load}
use sym_cc_modified.Shadow.Pages.{shadow_at}
use sym_cc_modified.GarbageCollection.{
  contains, insert, insert_slot, ExpressionRegion, collect_slots, collect_regions, collect_pages,
  collect_reachable_expressions, sweep, collect_garbage,
}

contains-insert_slot :
    (set : List ℕ) (slot : Option ℕ) (e : ℕ)
    → (contains (insert_slot set slot) e ≡ true) ↔ ((contains set e ≡ true) ⊎ (slot ≡ some e))
unfolding insert_slot insert contains
contains-insert_slot set none e = ((λ h. inl h), (λ h. ground arith))
contains-insert_slot set (some x) e = elim (Bool-cases (contains set x)) [
  | inl known ↦ rw known ((λ h. inl h), (λ h. ground arith))
  | inr new ↦ rw new ((λ h. ground arith), (λ h. ground arith))
]

-- Some slot of `n` slots from `i` holds the expression.
abbrev pub IsHeld : (ℕ → Option ℕ) → ℕ → ℕ → ℕ → Type 0
IsHeld slots n i e = (j : ℕ) × (i ≤ j) × (j < i + n) × (slots j ≡ some e)

contains-collect_slots :
    (slots : ℕ → Option ℕ) (n i : ℕ) (set : List ℕ) (e : ℕ)
    → (contains (collect_slots slots n i set) e ≡ true)
      ↔ ((contains set e ≡ true) ⊎ IsHeld slots n i e)
unfolding collect_slots
contains-collect_slots slots zero i set e =
    ((λ h. inl h), (λ h. elim h [ inl k ↦ k | inr (j, p, q, k) ↦ absurd (omega arith) ]))
contains-collect_slots slots (suc n) i set e =
    let rest = contains-collect_slots slots n (i + 1) (insert_slot set (slots i)) e in
    let here = contains-insert_slot set (slots i) e in
    (
      (λ h. elim (rest.0 h) [
        | inl k ↦ elim (here.0 k) [
          | inl old ↦ inl old
          | inr now ↦ inr (i, omega arith, omega arith, now)
        ]
        | inr (j, p, q, k) ↦ inr (j, omega arith, omega arith, k)
      ]),
      (λ h. rest.1 (elim h [
        | inl old ↦ inl (here.1 (inl old))
        | inr (j, p, q, k) ↦ elim (Bool-cases (i == j)) [
          | inl now ↦ inl (here.1 (inr (ap slots ((==_iff i j).0 now) ∙ k)))
          | inr later ↦ inr (j, ground arith, omega arith, k)
        ]
      ])),
    )

-- A slot of a registered region holds the expression.
pub InRegions : (ℕ → Option ℕ) → List ExpressionRegion → ℕ → Type 0
InRegions slots [] e = ⊥
InRegions slots (r ∷ regions) e = IsHeld slots r.length r.first e ⊎ InRegions slots regions e

-- A slot of a shadow page holds the expression.
pub InPages : Pages ℕ → ℕ → Type 0
InPages [] e = ⊥
InPages ((start, region) ∷ pages) e = IsHeld region page_size 0 e ⊎ InPages pages e

contains-collect_regions :
    (slots : ℕ → Option ℕ) (regions : List ExpressionRegion) (set : List ℕ) (e : ℕ)
    → (contains (collect_regions slots regions set) e ≡ true)
      ↔ ((contains set e ≡ true) ⊎ InRegions slots regions e)
unfolding collect_regions InRegions
contains-collect_regions slots [] set e =
    ((λ h. inl h), (λ h. elim h [ inl k ↦ k | inr k ↦ absurd k ]))
contains-collect_regions slots (r ∷ regions) set e =
    let rest =
      contains-collect_regions slots regions (collect_slots slots r.length r.first set) e in
    let here = contains-collect_slots slots r.length r.first set e in
    (
      (λ h. elim (rest.0 h) [
        | inl k ↦ elim (here.0 k) [ inl old ↦ inl old | inr now ↦ inr (inl now) ]
        | inr k ↦ inr (inr k)
      ]),
      (λ h. rest.1 (elim h [
        | inl old ↦ inl (here.1 (inl old))
        | inr (inl now) ↦ inl (here.1 (inr now))
        | inr (inr k) ↦ inr k
      ])),
    )

contains-collect_pages :
    (pages : Pages ℕ) (set : List ℕ) (e : ℕ)
    → (contains (collect_pages pages set) e ≡ true) ↔ ((contains set e ≡ true) ⊎ InPages pages e)
unfolding collect_pages InPages
contains-collect_pages [] set e = ((λ h. inl h), (λ h. elim h [ inl k ↦ k | inr k ↦ absurd k ]))
contains-collect_pages ((start, region) ∷ pages) set e =
    let rest = contains-collect_pages pages (collect_slots region page_size 0 set) e in
    let here = contains-collect_slots region page_size 0 set e in
    (
      (λ h. elim (rest.0 h) [
        | inl k ↦ elim (here.0 k) [ inl old ↦ inl old | inr now ↦ inr (inl now) ]
        | inr k ↦ inr (inr k)
      ]),
      (λ h. rest.1 (elim h [
        | inl old ↦ inl (here.1 (inl old))
        | inr (inl now) ↦ inl (here.1 (inr now))
        | inr (inr k) ↦ inr k
      ])),
    )

-- The reachable expressions are exactly those that a slot of a registered region or a slot of a
-- shadow page holds.
pub collect_reachable_expressions_iff :
    (slots : ℕ → Option ℕ) (regions : List ExpressionRegion) (pages : Pages ℕ) (e : ℕ)
    → (contains (collect_reachable_expressions slots regions pages) e ≡ true)
      ↔ (InRegions slots regions e ⊎ InPages pages e)
unfolding collect_reachable_expressions contains
collect_reachable_expressions_iff slots regions pages e =
    let from_pages = contains-collect_pages pages (collect_regions slots regions []) e in
    let from_regions = contains-collect_regions slots regions [] e in
    (
      (λ h. elim (from_pages.0 h) [
        | inl k ↦ elim (from_regions.0 k) [
          | inl empty ↦ absurd (ground arith)
          | inr held ↦ inl held
        ]
        | inr held ↦ inr held
      ]),
      (λ h.
          from_pages.1
            (elim h [ inl held ↦ inl (from_regions.1 (inr held)) | inr held ↦ inr held ])),
    )

contains-sweep :
    (reachable allocated : List ℕ) (e : ℕ)
    → contains (sweep reachable allocated) e ≡ contains allocated e && contains reachable e
unfolding sweep contains
contains-sweep reachable [] e = refl
contains-sweep reachable (x ∷ xs) e = ground (arith, contains-sweep reachable xs e)

shadow-InPages : (pages : Pages ℕ) (a e : ℕ) → shadow_at pages a ≡ some e → InPages pages e
unfolding shadow_at load find_page InPages
shadow-InPages [] a e h = absurd (ground arith)
shadow-InPages ((start, region) ∷ pages) a e h = elim (Bool-cases (start == page_start a)) [
  | inl here ↦ inl (page_offset a, omega arith, omega arith, ground arith)
  | inr elsewhere ↦ inr (shadow-InPages pages a e (ground arith))
]

-- A collection adds no expression, keeps every allocated expression that a slot of a registered
-- region or the shadow of a byte holds, and, if the number of allocated expressions has reached
-- the threshold, keeps no expression that neither a registered region nor a shadow page holds.
pub collect_garbage_lem :
    (threshold : ℕ) (slots : ℕ → Option ℕ) (regions : List ExpressionRegion) (pages : Pages ℕ)
    (allocated : List ℕ) (e : ℕ)
    → (contains (collect_garbage threshold slots regions pages allocated) e ≡ true
        → contains allocated e ≡ true)
      × (contains allocated e ≡ true
          → InRegions slots regions e ⊎ ((a : ℕ) × (shadow_at pages a ≡ some e))
          → contains (collect_garbage threshold slots regions pages allocated) e ≡ true)
      × (threshold ≤ length allocated
          → contains (collect_garbage threshold slots regions pages allocated) e ≡ true
          → InRegions slots regions e ⊎ InPages pages e)
unfolding collect_garbage
collect_garbage_lem threshold slots regions pages allocated e =
    let reachable = collect_reachable_expressions_iff slots regions pages e in
    let swept = contains-sweep (collect_reachable_expressions slots regions pages) allocated e in
    let held : InRegions slots regions e ⊎ ((a : ℕ) × (shadow_at pages a ≡ some e))
        → contains (collect_reachable_expressions slots regions pages) e ≡ true =
      λ h. reachable.1 (elim h [ inl k ↦ inl k | inr (a, k) ↦ inr (shadow-InPages pages a e k) ]) in
    elim (Bool-cases (ltb (length allocated) threshold)) [
      | inl few ↦ rw few ((λ h. h), (λ h k. h), (λ h k. absurd (ground arith)))
      | inr many ↦
          rw (many, swept)
            ((λ h. ground arith), (λ h k. rw (h, held k)), (λ h k. reachable.0 (ground arith)))
    ]
