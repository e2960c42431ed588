-- ===== src/Memory/Asserted.antt =====
-- runtime/RuntimeCommon.cpp: the operations on memory that only move expressions, and `isConcrete`
-- of runtime/Shadow.h, with the assertion on each shadow expression that is read. `none` stands for
-- the assertion that fails.
pub mod Access
use sym_cc_modified.Base.{
  ℕ, ◌+◌, ◌-◌, ◌≡◌, ◌⊎◌, ◌↔◌, refl, ap, ◌∙◌, Bool, true, false, ◌&&◌, not, Option, none, some, ◌==◌,
  ltb, if◌then◌else◌, ◌>>=◌, arith, ◌<◌, ◌≤◌, word_size, Bool-cases, add64, inl, inr,
}
use sym_cc_modified.Builder.{Builder}
use sym_cc_modified.Shadow.{Pages, page_start, is_present, read_begin, write_begin}
use sym_cc_modified.Shadow.Pages.{shadow_at, write_begin-IsValid}
use sym_cc_modified.Shadow.Ranges.{is_null, all_null, copy, copy_backward, generate, fill}
use sym_cc_modified.Shadow.Ranges.Copy.{is_within}
use sym_cc_modified.Shadow.Ranges.Fill.{IsConcrete}
use sym_cc_modified.Shadow.Asserted.{
  checked_all_null, checked_copy, checked_copy_backward, HoldsBytes, IsByte, Extends-HoldsBytes,
  checked_all_null_lem, checked_copy_lem, checked_copy_backward_lem, fill-HoldsBytes,
}
use sym_cc_modified.Memory.{is_concrete, write_range, memcpy, memset, memmove}
use sym_cc_modified.Memory.Moves.{
  is_concrete_iff, write_range-IsValid, Copied, memcpy-Copied, memmove-Copied, memset_view,
}

module _ {E : Type 0} (b : Builder E) where
  -- `isConcrete`
  unfoldable pub checked_is_concrete : Pages E → ℕ → ℕ → Option Bool
  checked_is_concrete pages address nbytes =
      if page_start address == page_start (add64 address nbytes)
        && not (is_present pages (page_start address))
      then some true
      else checked_all_null b nbytes pages (read_begin pages address)

  -- `isConcrete(src, length) && isConcrete(dest, size)`: the second is only evaluated where the
  -- first holds.
  unfoldable pub both_concrete : Pages E → ℕ → ℕ → ℕ → ℕ → Option Bool
  unfolding checked_is_concrete
  both_concrete pages dest src length size = checked_is_concrete pages src length >>= λ concrete.
      if concrete then checked_is_concrete pages dest size else some false

  -- `_sym_memcpy`
  pub checked_memcpy : Pages E → ℕ → ℕ → ℕ → Option (Pages E)
  unfolding both_concrete
  checked_memcpy pages dest src length = both_concrete pages dest src length length >>= λ concrete.
      if concrete
      then some pages
      else let first = read_begin pages src in
        let (pages', result) = write_begin pages dest in checked_copy b length pages' first result

  -- `_sym_memset`: `isConcrete` is only evaluated for a null value.
  pub checked_memset : Pages E → ℕ → Option E → ℕ → Option (Pages E)
  unfolding checked_is_concrete
  checked_memset pages memory value length =
      (if is_null value then checked_is_concrete pages memory length else some false)
      >>= λ concrete.
          if concrete
          then some pages
          else let (pages', first) = write_range pages memory length in
            some (fill value length pages' first)

  -- `_sym_memmove`
  pub checked_memmove : Pages E → ℕ → ℕ → ℕ → Option (Pages E)
  unfolding both_concrete
  checked_memmove pages dest src length = both_concrete pages dest src length length >>= λ concrete.
      if concrete
      then some pages
      else if ltb src dest
      then (let last = read_begin pages (add64 src length) in
          let (pages', result) = write_begin pages (add64 dest length) in
          checked_copy_backward b length pages' last result)
      else let first = read_begin pages src in
        let (pages', result) = write_begin pages dest in checked_copy b length pages' first result

  pub checked_is_concrete_eq :
      (pages : Pages E) (a n : ℕ)
      → HoldsBytes b pages
      → checked_is_concrete pages a n ≡ some (is_concrete pages a n)
  unfolding checked_is_concrete is_concrete
  checked_is_concrete_eq pages a n byte =
      elim (Bool-cases
        (page_start a == page_start (add64 a n) && not (is_present pages (page_start a)))) [
          | inl fast ↦ rw fast
          | inr slow ↦ rw slow (checked_all_null_lem b n pages (read_begin pages a) byte)
        ]

  both_concrete_lem :
      (pages : Pages E) (dest src n : ℕ)
      → HoldsBytes b pages
      → both_concrete pages dest src n n
        ≡ some (is_concrete pages src n && is_concrete pages dest n)
  unfolding both_concrete
  both_concrete_lem pages dest src n byte =
      rw (checked_is_concrete_eq pages src n byte) (elim (Bool-cases (is_concrete pages src n)) [
        | inl first ↦ rw first (checked_is_concrete_eq pages dest n byte)
        | inr other ↦ rw other
      ])

  write_begin-HoldsBytes :
      (pages : Pages E) (a : ℕ) → HoldsBytes b pages → HoldsBytes b (write_begin pages a).0
  write_begin-HoldsBytes pages a byte = Extends-HoldsBytes b (write_begin-IsValid pages a).1 byte

  memcpy-HoldsBytes :
      (pages : Pages E) (dest src n : ℕ)
      → HoldsBytes b pages
      → (checked_memcpy pages dest src n ≡ some (memcpy pages dest src n))
        × HoldsBytes b (memcpy pages dest src n)
  unfolding checked_memcpy memcpy
  memcpy-HoldsBytes pages dest src n byte =
      rw (both_concrete_lem pages dest src n byte)
        (elim (Bool-cases (is_concrete pages src n && is_concrete pages dest n)) [
          | inl fast ↦ rw fast (refl, byte)
          | inr slow ↦ rw slow (
              checked_copy_lem b n (write_begin pages dest).0 (read_begin pages src)
                (write_begin pages dest).1 (write_begin-HoldsBytes pages dest byte))
        ])

  memmove-HoldsBytes :
      (pages : Pages E) (dest src n : ℕ)
      → HoldsBytes b pages
      → (checked_memmove pages dest src n ≡ some (memmove pages dest src n))
        × HoldsBytes b (memmove pages dest src n)
  unfolding checked_memmove memmove
  memmove-HoldsBytes pages dest src n byte =
      rw (both_concrete_lem pages dest src n byte)
        (elim (Bool-cases (is_concrete pages src n && is_concrete pages dest n)) [
          | inl fast ↦ rw fast (refl, byte)
          | inr slow ↦ rw slow (elim (Bool-cases (ltb src dest)) [
            | inl above ↦ rw above (
                checked_copy_backward_lem b n (write_begin pages (add64 dest n)).0
                  (read_begin pages (add64 src n)) (write_begin pages (add64 dest n)).1
                  (write_begin-HoldsBytes pages (add64 dest n) byte))
            | inr below ↦ rw below (
                checked_copy_lem b n (write_begin pages dest).0 (read_begin pages src)
                  (write_begin pages dest).1 (write_begin-HoldsBytes pages dest byte))
          ])
        ])

  memset_eq :
      (pages : Pages E) (a : ℕ) (value : Option E) (n : ℕ)
      → HoldsBytes b pages
      → checked_memset pages a value n ≡ some (memset pages a value n)
  unfolding checked_memset memset
  memset_eq pages a value n byte = elim (Bool-cases (is_null value)) [
    | inl null ↦
        rw (null, checked_is_concrete_eq pages a n byte)
          (elim (Bool-cases (is_concrete pages a n)) [ inl fast ↦ rw fast | inr slow ↦ rw slow ])
    | inr symbolic ↦ rw symbolic
  ]

  memset-HoldsBytes :
      (pages : Pages E) (a : ℕ) (value : Option E) (n : ℕ)
      → HoldsBytes b pages
      → IsByte b value
      → HoldsBytes b (memset pages a value n)
  unfolding memset
  memset-HoldsBytes pages a value n byte this =
      elim (Bool-cases (is_null value && is_concrete pages a n)) [
        | inl fast ↦ rw fast byte
        | inr slow ↦ rw slow (
            fill-HoldsBytes b value n (write_range pages a n).0 (write_range pages a n).1 this
              (Extends-HoldsBytes b (write_range-IsValid pages a n).1 byte))
      ]

  -- For a shadow whose expressions all represent bytes and a region that does not wrap around,
  -- `isConcrete`, the fast path included, meets no failing assertion and answers true exactly
  -- when no byte of the region has an expression.
  pub checked_is_concrete_lem :
      (pages : Pages E) (address nbytes : ℕ)
      → HoldsBytes b pages
      → address + nbytes < word_size
      → (concrete : Bool) × (checked_is_concrete pages address nbytes ≡ some concrete)
        × ((concrete ≡ true) ↔ IsConcrete pages address nbytes)
  checked_is_concrete_lem pages a n byte q =
      (is_concrete pages a n, checked_is_concrete_eq pages a n byte, is_concrete_iff pages a n q)

  -- For a shadow whose expressions all represent bytes and regions that do not wrap around, where
  -- the destination starts at or below the source or the two do not overlap, `_sym_memcpy` meets
  -- no failing assertion, copies the expressions of the source, changes the shadow of no other
  -- byte, and leaves a shadow whose expressions all represent bytes.
  pub checked_memcpy-Copied :
      (pages : Pages E) (dest src length : ℕ)
      → HoldsBytes b pages
      → src + length < word_size
      → dest + length < word_size
      → (dest ≤ src) ⊎ (src + length ≤ dest)
      → (later : Pages E) × (checked_memcpy pages dest src length ≡ some later)
        × Copied pages later dest src length
        × HoldsBytes b later
  checked_memcpy-Copied pages dest src n byte p q apart =
      let (done, still) = memcpy-HoldsBytes pages dest src n byte in
      (memcpy pages dest src n, done, memcpy-Copied pages dest src n p q apart, still)

  -- For a shadow whose expressions all represent bytes and regions that do not wrap around,
  -- `_sym_memmove` meets no failing assertion, gives each byte of the destination the expression
  -- that its source byte had before the call, however the regions overlap, changes the shadow of
  -- no other byte, and leaves a shadow whose expressions all represent bytes.
  pub checked_memmove-Copied :
      (pages : Pages E) (dest src length : ℕ)
      → HoldsBytes b pages
      → src + length < word_size
      → dest + length < word_size
      → (later : Pages E) × (checked_memmove pages dest src length ≡ some later)
        × Copied pages later dest src length
        × HoldsBytes b later
  checked_memmove-Copied pages dest src n byte p q =
      let (done, still) = memmove-HoldsBytes pages dest src n byte in
      (memmove pages dest src n, done, memmove-Copied pages dest src n p q, still)

  -- For a shadow whose expressions all represent bytes and a region that does not wrap around,
  -- `_sym_memset` meets no failing assertion, gives every byte of the region the expression, null
  -- included, and changes the shadow of no other byte; if the expression is null or represents a
  -- byte, the expressions of the shadow that is left all represent bytes.
  pub checked_memset_view :
      (pages : Pages E) (a : ℕ) (value : Option E) (n : ℕ)
      → HoldsBytes b pages
      → a + n < word_size
      → (later : Pages E) × (checked_memset pages a value n ≡ some later)
        × ((c : ℕ) → shadow_at later c ≡ (if is_within a n c then value else shadow_at pages c))
        × (IsByte b value → HoldsBytes b later)
  checked_memset_view pages a value n byte q = (
    memset pages a value n,
    memset_eq pages a value n byte,
    memset_view pages a value n q,
    memset-HoldsBytes pages a value n byte,
  )
