-- ===== src/Memory.antt =====
-- runtime/RuntimeCommon.cpp: the operations on the program's memory, and `isConcrete` of
-- runtime/Shadow.h, as they go on while the shadow expressions that they read represent bytes.
-- Memory.Asserted has them with the assertion on each of these expressions. Arguments of a call are evaluated from the left.
pub mod Moves
pub mod Access
pub mod Writes
pub mod RoundTrip
pub mod Symbolic
pub mod Asserted
use sym_cc_modified.Base.{
  ℕ, zero, suc, ◌+◌, ◌-◌, Bool, true, false, ◌&&◌, not, Option, none, some, ◌==◌, if◌then◌else◌,
  ltb, add64, sub64, mul64,
}
use sym_cc_modified.Builder.{Builder}
use sym_cc_modified.Shadow.{
  Pages, ReadIterator, WriteIterator, page_start, is_present, read_begin, read_next, read_value,
  write_begin,
}
use sym_cc_modified.Shadow.Ranges.{all_null, is_null, copy, copy_backward, generate, fill}

module _ {E : Type 0} where
  pub is_concrete : Pages E → ℕ → ℕ → Bool
  is_concrete pages address nbytes =
      if page_start address == page_start (add64 address nbytes)
        && not (is_present pages (page_start address))
      then true
      else all_null nbytes pages (read_begin pages address)

  -- `begin()` and `end()` of a `ReadWriteShadow`: both shadow the page that they point to.
  pub write_range : Pages E → ℕ → ℕ → Pages E × WriteIterator
  write_range pages address length =
      let (pages', first) = write_begin pages address in
      let (pages'', last) = write_begin pages' (add64 address length) in (pages'', first)

  pub memcpy : Pages E → ℕ → ℕ → ℕ → Pages E
  memcpy pages dest src length =
      if is_concrete pages src length && is_concrete pages dest length
      then pages
      else let first = read_begin pages src in
        let (pages', result) = write_begin pages dest in copy length pages' first result

  pub memset : Pages E → ℕ → Option E → ℕ → Pages E
  memset pages memory value length =
      if is_null value && is_concrete pages memory length
      then pages
      else let (pages', first) = write_range pages memory length in fill value length pages' first

  pub memmove : Pages E → ℕ → ℕ → ℕ → Pages E
  memmove pages dest src length =
      if is_concrete pages src length && is_concrete pages dest length
      then pages
      else if ltb src dest
      then (let last = read_begin pages (add64 src length) in
          let (pages', result) = write_begin pages (add64 dest length) in
          copy_backward length pages' last result)
      else let first = read_begin pages src in
        let (pages', result) = write_begin pages dest in copy length pages' first result

-- `memory` holds the program's concrete bytes.
module _ {E : Type 0} (b : Builder E) (memory : ℕ → ℕ) where
  pub or_concrete : Option E → ℕ → E
  or_concrete (some symbolic_result) address = symbolic_result
  or_concrete none address = b.build_integer (memory address) 8

  -- `NonNullReadShadowIterator::operator*`
  pub non_null_value : Pages E → ReadIterator → E
  unfolding or_concrete
  non_null_value pages it = or_concrete (read_value pages it) it.address

  -- The function that `_sym_read_memory` accumulates with.
  pub append_byte : Bool → Option E → E → E
  append_byte little_endian none byte_expr = byte_expr
  append_byte true (some result) byte_expr = b.concat_helper byte_expr result
  append_byte false (some result) byte_expr = b.concat_helper result byte_expr

  -- `std::accumulate`, with the rounds that are left.
  pub accumulate : Bool → ℕ → Pages E → ReadIterator → Option E → Option E
  unfolding non_null_value append_byte
  accumulate little_endian zero pages first result = result
  accumulate little_endian (suc n) pages first result =
      accumulate little_endian n pages (read_next pages first)
        (some (append_byte little_endian result (non_null_value pages first)))

  -- The result is none where the assertion fails, and `some none` is the null expression.
  pub read_memory : Pages E → ℕ → ℕ → Bool → Option (Option E)
  unfolding accumulate
  read_memory pages address length little_endian =
      if length == 0
      then none
      else if is_concrete pages address length
      then some none
      else some (accumulate little_endian length pages (read_begin pages address) none)

module _ {E : Type 0} (b : Builder E) where
  -- The shadow of byte `i` of `length` bytes.
  pub extract_shadow : E → ℕ → Bool → ℕ → Option E
  extract_shadow expr length little_endian i =
      if little_endian
      then some (b.extract_helper expr (sub64 (mul64 8 (add64 i 1)) 1) (mul64 8 i))
      else some (
          b.extract_helper expr (sub64 (mul64 (sub64 length i) 8) 1)
            (mul64 (sub64 (sub64 length i) 1) 8))

  pub write_expr : Pages E → WriteIterator → ℕ → Option E → Bool → Pages E
  unfolding extract_shadow
  write_expr pages first length none little_endian = fill none length pages first
  write_expr pages first length (some expr) little_endian =
      generate (extract_shadow expr length little_endian) length 0 pages first

  pub write_memory : Pages E → ℕ → ℕ → Option E → Bool → Option (Pages E)
  unfolding write_expr
  write_memory pages address length expr little_endian =
      if length == 0
      then none
      else if is_null expr && is_concrete pages address length
      then some pages
      else let (pages', first) = write_range pages address length in
        some (write_expr pages' first length expr little_endian)

-- A signed `int` overflows here. The functions that generate the shadow of input bytes count the
-- bytes in one, and `none` also stands for the behaviour that is then undefined.
abbrev pub int_limit : ℕ
int_limit = 2147483648

-- `get_input_byte offset value` is the expression that the backend makes for an input byte.
module _ {E : Type 0} (get_input_byte : ℕ → ℕ → Option E) (memory : ℕ → ℕ) where
  pub make_symbolic : Pages E → ℕ → ℕ → ℕ → Option (Pages E)
  make_symbolic pages start byte_length input_offset =
      let (pages', first) = write_range pages start byte_length in
      if ltb byte_length int_limit
      then some (
          generate (λ i. get_input_byte (add64 input_offset i) (memory (add64 start i))) byte_length
            0 pages' first)
      else none
