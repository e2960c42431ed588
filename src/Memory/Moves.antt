-- ===== src/Memory/Moves.antt =====
-- Concreteness, and the operations that move expressions from byte to byte, while no assertion on
-- the shadow fails.
use sym_cc_modified.Base.{
  ℕ, ◌+◌, ◌-◌, ◌≡◌, ◌⊎◌, ◌↔◌, inl, inr, refl, ◌∙◌, true, ◌&&◌, not, Option, none, ◌==◌, ltb,
  if◌then◌else◌, arith, ◌<◌, ◌≤◌, word_size, Bool-cases, add64, ltb→lt,
}
use sym_cc_modified.Shadow.{Pages, page_start, is_present, read_begin, write_begin}
use sym_cc_modified.Shadow.Pages.{
  shadow_at, shadow_at-absent, IsValid, Extends, Extends-shadow_at, Extends-trans, Extends-IsValid,
  write_begin-IsValid,
}
use sym_cc_modified.Shadow.Reading.{read_begin-Reads, Reads-keep}
use sym_cc_modified.Shadow.Ranges.{copy, copy_backward, is_null}
use sym_cc_modified.Shadow.Ranges.Copy.{is_within, copy_view, copy_backward_view}
use sym_cc_modified.Shadow.Ranges.Fill.{IsConcrete, all_null_iff, fill_view, is_null_iff}
use sym_cc_modified.Memory.{is_concrete, write_range, memcpy, memset, memmove}

module _ {E : Type 0} where
  -- For a region that does not wrap around, `is_concrete`, the fast path included, holds exactly
  -- when no byte of the region has an expression.
  pub is_concrete_iff :
      (pages : Pages E) (address nbytes : ℕ)
      → address + nbytes < word_size
      → (is_concrete pages address nbytes ≡ true) ↔ IsConcrete pages address nbytes
  unfolding is_concrete
  is_concrete_iff pages a n q =
      let slow =
        all_null_iff n pages (read_begin pages a) a q (read_begin-Reads pages a a (a + n)) in
      elim (Bool-cases
        (page_start a == page_start (add64 a n) && not (is_present pages (page_start a)))) [
          | inl fast ↦ rw fast ((λ h c x y. shadow_at-absent pages c (ground arith)), (λ h. refl))
          | inr no_fast ↦ rw no_fast slow
        ]

  pub write_range-IsValid :
      (pages : Pages E) (a n : ℕ)
      → IsValid (write_range pages a n).0 (write_range pages a n).1 a
        × Extends pages (write_range pages a n).0
  unfolding write_range
  write_range-IsValid pages a n =
      let (valid, more) = write_begin-IsValid pages a in
      let (_, still) = write_begin-IsValid (write_begin pages a).0 (add64 a n) in
      (Extends-IsValid still valid, Extends-trans more still)

  -- The bytes from `src` on are copied to those from `dest` on, and no other byte changes.
  abbrev pub Copied : Pages E → Pages E → ℕ → ℕ → ℕ → Type 0
  Copied pages later dest src n =
      (c : ℕ)
      → shadow_at later c
        ≡ (if is_within dest n c then shadow_at pages (src + (c - dest)) else shadow_at pages c)

  concrete-Copied :
      (pages : Pages E) (dest src n : ℕ)
      → src + n < word_size
      → dest + n < word_size
      → is_concrete pages src n && is_concrete pages dest n ≡ true
      → Copied pages pages dest src n
  concrete-Copied pages dest src n p q h c =
      let from = (is_concrete_iff pages src n p).0 (ground arith) in
      let to = (is_concrete_iff pages dest n q).0 (ground arith) in
      elim (Bool-cases (is_within dest n c)) [
        | inl inside ↦ rw (
          inside,
          to c (ground arith) (ground arith),
          from (src + (c - dest)) (ground arith) (ground arith),
        )
        | inr outside ↦ rw outside
      ]

  copy-Copied :
      (pages : Pages E) (dest src n : ℕ)
      → src + n < word_size
      → dest + n < word_size
      → (dest ≤ src) ⊎ (src + n ≤ dest)
      → Copied pages
          (copy n (write_begin pages dest).0 (read_begin pages src) (write_begin pages dest).1)
          dest
          src
          n
  copy-Copied pages dest src n p q apart c =
      let (valid, more) = write_begin-IsValid pages dest in
      copy_view n (write_begin pages dest).0 (read_begin pages src) (write_begin pages dest).1 src
        dest p q apart
        (Reads-keep src (src + n) (omega arith) (omega arith) (λ d x y. Extends-shadow_at more d)
          (read_begin-Reads pages src src (src + n)))
        valid c
      ∙ rw (Extends-shadow_at more c, Extends-shadow_at more (src + (c - dest)))

  copy_backward-Copied :
      (pages : Pages E) (dest src n : ℕ)
      → src + n < word_size
      → dest + n < word_size
      → src ≤ dest
      → Copied pages
          (copy_backward n
            (write_begin pages (dest + n)).0
            (read_begin pages (src + n))
            (write_begin pages (dest + n)).1)
          dest
          src
          n
  copy_backward-Copied pages dest src n p q below c =
      let (valid, more) = write_begin-IsValid pages (dest + n) in
      copy_backward_view n (write_begin pages (dest + n)).0 (read_begin pages (src + n))
        (write_begin pages (dest + n)).1 src dest p q (inl below)
        (Reads-keep src (src + n) (omega arith) (omega arith) (λ d x y. Extends-shadow_at more d)
          (read_begin-Reads pages (src + n) src (src + n)))
        valid c
      ∙ rw (Extends-shadow_at more c, Extends-shadow_at more (src + (c - dest)))

  -- For regions that do not wrap around, where the destination starts at or below the source or
  -- the two do not overlap, `memcpy` copies the expressions of the source and changes the
  -- shadow of no other byte.
  pub memcpy-Copied :
      (pages : Pages E) (dest src length : ℕ)
      → src + length < word_size
      → dest + length < word_size
      → (dest ≤ src) ⊎ (src + length ≤ dest)
      → Copied pages (memcpy pages dest src length) dest src length
  unfolding memcpy
  memcpy-Copied pages dest src n p q apart =
      elim (Bool-cases (is_concrete pages src n && is_concrete pages dest n)) [
        | inl fast ↦ rw fast (concrete-Copied pages dest src n p q fast)
        | inr slow ↦ rw slow (copy-Copied pages dest src n p q apart)
      ]

  -- For regions that do not wrap around, `memmove` gives each byte of the destination the
  -- expression that its source byte had before the call, however the regions overlap, and changes
  -- the shadow of no other byte.
  pub memmove-Copied :
      (pages : Pages E) (dest src length : ℕ)
      → src + length < word_size
      → dest + length < word_size
      → Copied pages (memmove pages dest src length) dest src length
  unfolding memmove
  memmove-Copied pages dest src n p q =
      elim (Bool-cases (is_concrete pages src n && is_concrete pages dest n)) [
        | inl fast ↦ rw fast (concrete-Copied pages dest src n p q fast)
        | inr slow ↦ rw slow (elim (Bool-cases (ltb src dest)) [
          | inl above ↦
              let end_src : add64 src n ≡ src + n = omega arith in
              let end_dest : add64 dest n ≡ dest + n = omega arith in
              rw (above, end_src, end_dest)
                (copy_backward-Copied pages dest src n p q (omega (arith, ltb→lt src dest above)))
          | inr below ↦ rw below (copy-Copied pages dest src n p q (inl (ground arith)))
        ])
      ]

  -- For a region that does not wrap around, `memset` gives every byte of the region the
  -- expression, null included, and changes the shadow of no other byte.
  pub memset_view :
      (pages : Pages E) (memory : ℕ) (value : Option E) (length : ℕ)
      → memory + length < word_size
      → (c : ℕ)
      → shadow_at (memset pages memory value length) c
        ≡ (if is_within memory length c then value else shadow_at pages c)
  unfolding memset
  memset_view pages a value n q c = elim (Bool-cases (is_null value && is_concrete pages a n)) [
    | inl fast ↦
        let null : value ≡ none = (is_null_iff value).0 (ground arith) in
        let concrete = (is_concrete_iff pages a n q).0 (ground arith) in
        rw (fast, null)
          (elim (Bool-cases (is_within a n c)) [
            | inl inside ↦ rw (inside, concrete c (ground arith) (ground arith))
            | inr outside ↦ rw outside
          ])
    | inr slow ↦
        let (valid, more) = write_range-IsValid pages a n in
        rw slow (
          fill_view value n (write_range pages a n).0 (write_range pages a n).1 a q valid c
          ∙ rw (Extends-shadow_at more c))
  ]
