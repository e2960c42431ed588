-- ===== src/Shadow/Ranges/Copy.antt =====
-- Copies between ranges that may overlap.
use sym_cc_modified.Base.{
  ℕ, zero, suc, ◌+◌, ◌-◌, ◌≡◌, ◌⊎◌, inl, inr, ap, subst, ◌∙◌, Bool, ◌&&◌, Option, ◌==◌, leb, ltb,
  Bool-cases, if◌then◌else◌, arith, ◌<◌, ◌≤◌, word_size,
}
use sym_cc_modified.Shadow.{
  Pages, ReadIterator, WriteIterator, page_start, store, read_next, read_prev, read_value,
  write_next, write_prev,
}
use sym_cc_modified.Shadow.Pages.{
  shadow_at, IsValid, Extends-shadow_at, shadow_at-store, write_next-IsValid, write_prev-IsValid,
  is_present-store,
}
use sym_cc_modified.Shadow.Reading.{
  Reads, read_value_lem, read_next-Reads, read_prev-Reads, Reads-keep,
}
use sym_cc_modified.Shadow.Ranges.{copy, copy_backward}

-- Whether `c` is one of `n` bytes from `a`.
abbrev pub is_within : ℕ → ℕ → ℕ → Bool
is_within a n c = leb a c && ltb c (a + n)

next_apart :
    (n from to : ℕ)
    → (to ≤ from) ⊎ (from + suc n ≤ to)
    → (to + 1 ≤ from + 1) ⊎ (from + 1 + n ≤ to + 1)
next_apart n from to (inl h) = inl (omega arith)
next_apart n from to (inr h) = inr (omega arith)

prev_apart : (n from to : ℕ) → (from ≤ to) ⊎ (to + suc n ≤ from) → (from ≤ to) ⊎ (to + n ≤ from)
prev_apart n from to (inl h) = inl h
prev_apart n from to (inr h) = inr (omega arith)

module _ {E : Type 0} where
  -- One write through a valid iterator, and a step.
  pub record Wrote (pages later : Pages E) (a : ℕ) (value : Option E) : Type 0 where
    pub view : (c : ℕ) → shadow_at later c ≡ (if c == a then value else shadow_at pages c)

  store-Wrote :
      (pages : Pages E) (it : WriteIterator) (a : ℕ) (value : Option E)
      → IsValid pages it a
      → Wrote pages (store pages it.shadow value) a value
        × IsValid (store pages it.shadow value) it a
  store-Wrote pages it a value v = (
    record { view = λ c. rw v.points (shadow_at-store pages a c value v.there) },
    record {
      at = v.at;
      points = v.points;
      there = is_present-store it.shadow value pages (page_start a) ∙ v.there;
    },
  )

  pub write-step :
      (pages : Pages E) (it : WriteIterator) (a : ℕ) (value : Option E)
      → a + 1 < word_size
      → IsValid pages it a
      → let next = write_next (store pages it.shadow value) it in
        Wrote pages next.0 a value × IsValid next.0 next.1 (a + 1)
  write-step pages it a value small v =
      let (wrote, valid) = store-Wrote pages it a value v in
      let (valid', more) = write_next-IsValid (store pages it.shadow value) it a small valid in
      (record { view = λ c. Extends-shadow_at more c ∙ wrote.view c }, valid')

  -- The bytes after the first one and the first one make up the whole range.
  copy_first :
      (old new : ℕ → Option E) (value : Option E) (n from to c : ℕ)
      → (to ≤ from) ⊎ (from + suc n ≤ to)
      → value ≡ old from
      → ((d : ℕ) → new d ≡ (if d == to then value else old d))
      → (if is_within (to + 1) n c then new (from + 1 + (c - (to + 1))) else new c)
        ≡ (if is_within to (suc n) c then old (from + (c - to)) else old c)
  copy_first old new value n from to c apart first h = elim (Bool-cases (is_within (to + 1) n c)) [
    | inl inside ↦
        let place : from + 1 + (c - (to + 1)) ≡ from + (c - to) = ground arith in
        rw place (ground (arith, h (from + (c - to)), h c))
    | inr outside ↦
        let place : c ≡ to → from ≡ from + (c - to) = λ e. omega arith in
        ground (arith, h c, λ (e : c ≡ to). ap old (place e))
  ]

  -- A copy upwards between ranges that do not wrap around, where the target starts at or below
  -- the source or lies above all of it, gives the target the expressions that the source had and
  -- changes the shadow of no other byte, pages that the copy creates included.
  pub copy_view :
      (n : ℕ) (pages : Pages E) (first : ReadIterator) (result : WriteIterator) (from to : ℕ)
      → from + n < word_size
      → to + n < word_size
      → (to ≤ from) ⊎ (from + n ≤ to)
      → Reads pages first from from (from + n)
      → IsValid pages result to
      → (c : ℕ)
      → shadow_at (copy n pages first result) c
        ≡ (if is_within to n c then shadow_at pages (from + (c - to)) else shadow_at pages c)
  unfolding copy
  copy_view zero pages first result from to p q apart r v c = ground arith
  copy_view (suc n) pages first result from to p q apart r v c =
      let value : Option E = read_value pages first in
      let (wrote, valid) = write-step pages result to value (omega arith) v in
      let pages' : Pages E = (write_next (store pages result.shadow value) result).0 in
      let reads : Reads pages' first from (from + 1) (from + 1 + n) =
        Reads-keep (from + 1) (from + 1 + n) (omega arith) (omega arith)
          (λ d x y. ground (arith, wrote.view d)) r in
      copy_view n pages' (read_next pages' first)
        (write_next (store pages result.shadow value) result).1 (from + 1) (to + 1) (omega arith)
        (omega arith) (next_apart n from to apart)
        (read_next-Reads pages' first from (from + 1) (from + 1 + n) (omega arith) reads) valid c
      ∙ copy_first (shadow_at pages) (shadow_at pages') value n from to c apart
          (read_value_lem pages first from from (from + suc n) r (omega arith) (omega arith))
          wrote.view

  -- The bytes before the last one and the last one make up the whole range.
  copy_last :
      (old new : ℕ → Option E) (value : Option E) (n from to c : ℕ)
      → (from ≤ to) ⊎ (to + suc n ≤ from)
      → value ≡ old (from + n)
      → ((d : ℕ) → new d ≡ (if d == to + n then value else old d))
      → (if is_within to n c then new (from + (c - to)) else new c)
        ≡ (if is_within to (suc n) c then old (from + (c - to)) else old c)
  copy_last old new value n from to c apart last h = elim (Bool-cases (is_within to n c)) [
    | inl inside ↦ ground (arith, h (from + (c - to)), h c)
    | inr outside ↦
        let place : c ≡ to + n → from + n ≡ from + (c - to) = λ e. omega arith in
        ground (arith, h c, λ (e : c ≡ to + n). ap old (place e))
  ]

  -- A copy downwards between ranges that do not wrap around, where the target starts at or above
  -- the source or lies below all of it, gives the target the expressions that the source had and
  -- changes the shadow of no other byte, pages that the copy creates included.
  pub copy_backward_view :
      (n : ℕ) (pages : Pages E) (last : ReadIterator) (result : WriteIterator) (from to : ℕ)
      → from + n < word_size
      → to + n < word_size
      → (from ≤ to) ⊎ (to + n ≤ from)
      → Reads pages last (from + n) from (from + n)
      → IsValid pages result (to + n)
      → (c : ℕ)
      → shadow_at (copy_backward n pages last result) c
        ≡ (if is_within to n c then shadow_at pages (from + (c - to)) else shadow_at pages c)
  unfolding copy_backward
  copy_backward_view zero pages last result from to p q apart r v c = ground arith
  copy_backward_view (suc n) pages last result from to p q apart r v c =
      let end_from : from + suc n ≡ from + n + 1 = omega arith in
      let end_to : to + suc n ≡ to + n + 1 = omega arith in
      let last' : ReadIterator = read_prev pages last in
      let value : Option E = read_value pages last' in
      let reads : Reads pages last' (from + n) from (from + suc n) =
        read_prev-Reads pages last (from + n) from (from + suc n) (omega arith)
          (subst (λ t. Reads pages last t from (from + suc n)) end_from r) in
      let moved = write_prev-IsValid pages result (to + n) (omega arith) (rw (← end_to) v) in
      let pages' : Pages E = (write_prev pages result).0 in
      let result' : WriteIterator = (write_prev pages result).1 in
      let stored = store-Wrote pages' result' (to + n) value moved.0 in
      let later : Pages E = store pages' result'.shadow value in
      let view : (d : ℕ) → shadow_at later d ≡ (if d == to + n then value else shadow_at pages d) =
        λ d.
          stored.0.view d
          ∙ ap (λ t. if d == to + n then value else t) (Extends-shadow_at moved.1 d) in
      let kept : Reads later last' (from + n) from (from + n) =
        Reads-keep from (from + n) (omega arith) (omega arith) (λ d x y. ground (arith, view d))
          reads in
      copy_backward_view n later last' result' from to (omega arith) (omega arith)
        (prev_apart n from to apart) kept stored.1 c
      ∙ copy_last (shadow_at pages) (shadow_at later) value n from to c apart
          (read_value_lem pages last' (from + n) from (from + suc n) reads (omega arith)
            (omega arith))
          view
