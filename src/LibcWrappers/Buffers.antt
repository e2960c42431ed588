-- ===== src/LibcWrappers/Buffers.antt =====
-- runtime/LibcWrappers.cpp: the wrappers of functions on buffers and strings. `none` stands for an
-- assertion that fails.
use sym_cc_modified.Base.{
  ℕ, zero, suc, ◌-◌, Bool, true, ◌&&◌, Option, none, some, ◌∷◌, if◌then◌else◌, ltb, add64, sub64,
  ◌>>=◌,
}
use sym_cc_modified.Builder.{Builder}
use sym_cc_modified.Shadow.{Pages, ReadIterator, read_begin, read_next, write_begin}
use sym_cc_modified.Shadow.Ranges.{is_null, fill}
use sym_cc_modified.Shadow.Asserted.{checked_value, checked_copy}
use sym_cc_modified.Memory.{write_range, or_concrete}
use sym_cc_modified.Memory.Asserted.{
  checked_is_concrete, both_concrete, checked_memcpy, checked_memset, checked_memmove,
}
use sym_cc_modified.Memory.Asserted.Access.{checked_non_null_value}
use sym_cc_modified.Aggregate.{build_bswap}
use sym_cc_modified.LibcWrappers.{LibcState, set_return, parameter, try_alternative}

module _ {E : Type 0} (b : Builder E) where
  -- Three parameters of 64 bits, in the order of the parameters.
  pub try_three : LibcState E → ℕ → ℕ → ℕ → LibcState E
  try_three state first second third =
      let one = try_alternative b state first 64 (parameter state 0) in
      let two = try_alternative b one second 64 (parameter state 1) in
      try_alternative b two third 64 (parameter state 2)

  pub memcpy_symbolized : LibcState E → ℕ → ℕ → ℕ → Option (LibcState E)
  unfolding try_three
  memcpy_symbolized state dest src n =
      let tried = try_three state dest src n in
      checked_memcpy b tried.pages dest src n >>= λ pages.
      some (set_return (record tried { pages = pages }) (parameter state 0))

  pub memset_symbolized : LibcState E → ℕ → ℕ → Option (LibcState E)
  memset_symbolized state s n =
      let one = try_alternative b state s 64 (parameter state 0) in
      let tried = try_alternative b one n 64 (parameter state 2) in
      checked_memset b tried.pages s (parameter state 1) n >>= λ pages.
      some (set_return (record tried { pages = pages }) (parameter state 0))

  pub bzero : LibcState E → ℕ → ℕ → LibcState E
  bzero state s n =
      let returned = set_return state none in
      let one = try_alternative b returned s 64 (parameter state 0) in
      let tried = try_alternative b one n 64 (parameter state 1) in
      let (pages, first) = write_range tried.pages s n in
      record tried { pages = fill none n pages first }

  pub memmove_symbolized : LibcState E → ℕ → ℕ → ℕ → Option (LibcState E)
  unfolding try_three
  memmove_symbolized state dest src n =
      let tried = try_three state dest src n in
      checked_memmove b tried.pages dest src n >>= λ pages.
      some (set_return (record tried { pages = pages }) (parameter state 0))

  pub bcopy : LibcState E → ℕ → ℕ → ℕ → Option (LibcState E)
  unfolding try_three
  bcopy state src dest n =
      let tried = try_three state src dest n in
      checked_memmove b tried.pages dest src n >>= λ pages.
      some (set_return (record tried { pages = pages }) none)

  -- `src_len` is what `strnlen` gives.
  pub strncpy : LibcState E → ℕ → ℕ → ℕ → ℕ → Option (LibcState E)
  unfolding try_three
  strncpy state dest src n src_len =
      let returned = set_return (try_three state dest src n) none in
      let copied = if ltb src_len n then src_len else n in
      both_concrete b returned.pages dest src copied n >>= λ concrete.
      if concrete
      then some returned
      else let first = read_begin returned.pages src in
        let (pages, result) = write_begin returned.pages dest in
        checked_copy b copied pages first result >>= λ done.
        if ltb copied n
        then (let (rest, start) = write_range done (add64 dest copied) (sub64 n copied) in
            some (record returned { pages = fill none (sub64 n copied) rest start }))
        else some (record returned { pages = done })

  pub push_constraint : LibcState E → E → Bool → LibcState E
  push_constraint state constraint taken = record state {
    constraints = (constraint, taken) ∷ state.constraints;
  }

-- `memory` holds the program's concrete bytes.
module _ {E : Type 0} (b : Builder E) (memory : ℕ → ℕ) where
  -- The loop of `SYM(strchr)`, with the rounds that are left.
  pub differ_from : ℕ → ℕ → ReadIterator → E → LibcState E → Option (LibcState E)
  unfolding push_constraint
  differ_from zero address it c_expr state = some state
  differ_from (suc n) address it c_expr state = checked_value b state.pages it >>= λ value.
      differ_from n (add64 address 1) (read_next state.pages it) c_expr (
        push_constraint b state (b.build_not_equal (or_concrete b memory value address) c_expr)
          true)

  -- `length` is the distance to the character that was found, or the length of the string.
  pub strchr : LibcState E → ℕ → ℕ → ℕ → Option (LibcState E)
  unfolding differ_from
  strchr state s c length =
      let one = try_alternative b state s 64 (parameter state 0) in
      let returned = set_return (try_alternative b one c 32 (parameter state 1)) none in
      checked_is_concrete b returned.pages s length >>= λ concrete.
      if concrete && is_null (parameter state 1)
      then some returned
      else let c_expr : E = elim (parameter state 1) [
        | none ↦ b.build_integer c 8
        | some expr ↦ b.build_trunc expr 8
      ] in
        differ_from length s (read_begin returned.pages s) c_expr returned

  -- The bytes that two iterators point to are equal.
  bytes_equal : Pages E → ReadIterator → ReadIterator → Option E
  unfolding checked_non_null_value
  bytes_equal pages left right = checked_non_null_value b memory pages left >>= λ x.
      checked_non_null_value b memory pages right >>= λ y. some (b.build_equal x y)

  -- The loop of `SYM(memcmp)` and `SYM(bcmp)`, with the rounds that are left.
  pub all_equal : ℕ → Pages E → ReadIterator → ReadIterator → E → Option E
  unfolding bytes_equal
  all_equal zero pages left right equal = some equal
  all_equal (suc n) pages left right equal =
      let left' = read_next pages left in
      let right' = read_next pages right in
      bytes_equal pages left' right' >>= λ next.
      all_equal n pages left' right' (b.build_bool_and equal next)

  -- `SYM(memcmp)` and `SYM(bcmp)`, whose bodies are the same; `same` tells whether the result was zero.
  pub memcmp : LibcState E → ℕ → ℕ → ℕ → Bool → Option (LibcState E)
  unfolding all_equal push_constraint try_three
  memcmp state left right n same =
      let returned = set_return (try_three b state left right n) none in
      both_concrete b returned.pages right left n n >>= λ concrete.
      if concrete
      then some returned
      else let left_it = read_begin returned.pages left in
        let right_it = read_begin returned.pages right in
        bytes_equal returned.pages left_it right_it >>= λ first.
        all_equal (n - 1) returned.pages left_it right_it first >>= λ equal.
        some (push_constraint b returned equal same)

module _ {E : Type 0} (b : Builder E) where
  -- On a little-endian machine. `none` stands for an assertion that fails.
  pub ntohl : LibcState E → Option (LibcState E)
  ntohl state = elim (parameter state 0) [
    | none ↦ some (set_return state none)
    | some netlong ↦ elim (build_bswap b netlong) [
      | none ↦ none
      | some swapped ↦ some (set_return state (some swapped))
    ]
  ]
