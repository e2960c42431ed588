-- ===== src/Shadow/Ranges.antt =====
-- The algorithms of the C++ standard library that runtime/RuntimeCommon.cpp and runtime/Shadow.h
-- run over shadow iterators, with the rounds that are left. A range `[begin(), end())` of a view of
-- `length` bytes takes `length` rounds (`ReadIterator` steps reach the end's address then, and not
-- before: `Shadow.Ranges.Ends`).
pub mod Ends
pub mod Copy
pub mod Fill
use sym_cc_modified.Base.{ℕ, zero, suc, ◌+◌, Bool, true, false, Option, none, some, if◌then◌else◌}
use sym_cc_modified.Shadow.{
  Pages, ReadIterator, WriteIterator, store, read_next, read_prev, read_value, write_next,
  write_prev,
}

module _ {E : Type 0} where
  pub is_null : Option E → Bool
  is_null none = true
  is_null (some e) = false

  -- `std::all_of(first, last, is null)`
  unfoldable pub all_null : ℕ → Pages E → ReadIterator → Bool
  unfolding is_null
  all_null zero pages first = true
  all_null (suc n) pages first =
      let rest = all_null n pages (read_next pages first) in
      if is_null (read_value pages first) then rest else false

  -- `std::copy(first, last, result)`
  unfoldable pub copy : ℕ → Pages E → ReadIterator → WriteIterator → Pages E
  copy zero pages first result = pages
  copy (suc n) pages first result =
      let stored = store pages result.shadow (read_value pages first) in
      let (pages', result') = write_next stored result in
      copy n pages' (read_next pages' first) result'

  -- `std::copy_backward(first, last, result)`; both iterators step back before they are used.
  unfoldable pub copy_backward : ℕ → Pages E → ReadIterator → WriteIterator → Pages E
  copy_backward zero pages last result = pages
  copy_backward (suc n) pages last result =
      let last' = read_prev pages last in
      let value = read_value pages last' in
      let (pages', result') = write_prev pages result in
      copy_backward n (store pages' result'.shadow value) last' result'

  -- `std::fill(first, last, value)` for a constant function, and `std::generate`, or a loop over the
  -- shadow bytes of a view, for the function of the byte's index.
  unfoldable pub generate : (ℕ → Option E) → ℕ → ℕ → Pages E → WriteIterator → Pages E
  generate f zero i pages first = pages
  generate f (suc n) i pages first =
      let stored = store pages first.shadow (f i) in
      let (pages', first') = write_next stored first in generate f n (i + 1) pages' first'

  unfoldable pub fill : Option E → ℕ → Pages E → WriteIterator → Pages E
  unfolding generate
  fill value n pages first = generate (λ i. value) n 0 pages first
