-- ===== src/Memory/Asserted/Access.antt =====
-- runtime/RuntimeCommon.cpp: `_sym_read_memory` and `_sym_write_memory` with the assertion on each
-- shadow expression that is read. `none` stands for an assertion that fails.
use sym_cc_modified.Base.{ℕ, zero, suc, Bool, false, Option, none, some, ◌==◌, if◌then◌else◌, ◌>>=◌}
use sym_cc_modified.Builder.{Builder}
use sym_cc_modified.Shadow.{Pages, ReadIterator, read_begin, read_next}
use sym_cc_modified.Shadow.Ranges.{is_null}
use sym_cc_modified.Shadow.Asserted.{checked_value}
use sym_cc_modified.Memory.{write_range, or_concrete, append_byte, write_expr}
use sym_cc_modified.Memory.Asserted.{checked_is_concrete}

module _ {E : Type 0} (b : Builder E) (memory : ℕ → ℕ) where
  -- `NonNullReadShadowIterator::operator*`
  unfoldable pub checked_non_null_value : Pages E → ReadIterator → Option E
  checked_non_null_value pages it =
      checked_value b pages it >>= λ value. some (or_concrete b memory value it.address)

  -- `std::accumulate`, with the rounds that are left.
  pub checked_accumulate : Bool → ℕ → Pages E → ReadIterator → Option E → Option (Option E)
  unfolding checked_non_null_value
  checked_accumulate little_endian zero pages first result = some result
  checked_accumulate little_endian (suc n) pages first result =
      checked_non_null_value pages first >>= λ byte.
      checked_accumulate little_endian n pages (read_next pages first)
        (some (append_byte b memory little_endian result byte))

  -- `_sym_read_memory`, where `some none` is the null expression.
  pub checked_read_memory : Pages E → ℕ → ℕ → Bool → Option (Option E)
  unfolding checked_accumulate
  checked_read_memory pages address length little_endian =
      if length == 0
      then none
      else (checked_is_concrete b pages address length >>= λ concrete.
          if concrete
          then some none
          else checked_accumulate little_endian length pages (read_begin pages address) none)

  -- `_sym_write_memory`
  pub checked_write_memory : Pages E → ℕ → ℕ → Option E → Bool → Option (Pages E)
  checked_write_memory pages address length expr little_endian =
      if length == 0
      then none
      else ((if is_null expr then checked_is_concrete b pages address length else some false)
          >>= λ concrete.
              if concrete
              then some pages
              else let (pages', first) = write_range pages address length in
                some (write_expr b pages' first length expr little_endian))
