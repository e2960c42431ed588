-- ===== src/Arithmetic/Widths.antt =====
-- The constants of the saturating operations, and signed values of expressions one bit wider.
use sym_cc_modified.Base.{
  ℕ, ◌+◌, ◌-◌, ◌*◌, ◌/◌, ◌%◌, ◌^◌, ◌≡◌, ◌<◌, ap, ◌∙◌, some, arith, u8, pow_double, pow_pos,
  word_size, shl64, subst, lt→ltb, ==_ne,
}
use native.Mathlib.Nat.{pow-le-pow_right, mod-eq_of_lt}
use sym_cc_modified.Base.Int.{to_signed}
use sym_cc_modified.Base.Signed.{signed, widen}
use sym_cc_modified.Builder.{Builder, Meaning, sign_extend}
use sym_cc_modified.Arithmetic.{build_min_signed_int, build_max_signed_int, build_max_unsigned_int}

abbrev pub half : ℕ → ℕ
half n = 2 ^ (n - 1)

pub pow_half : (n : ℕ) → 0 < n → 2 ^ n ≡ 2 * half n
pow_half n h = let e : n ≡ n - 1 + 1 = omega arith in ap (λ (t : ℕ). 2 ^ t) e ∙ pow_double (n - 1)

pub pow_wide : (n : ℕ) → 0 < n → 2 ^ (n + 1) ≡ 4 * half n
pow_wide n h = omega (arith, pow_double n, pow_half n h)

pub to_signed_lem : (n v : ℕ) → 0 < n → to_signed n v ≡ signed (half n) v
to_signed_lem n v h = rw (pow_half n h)

pub to_signed_wide : (n v : ℕ) → 0 < n → to_signed (n + 1) v ≡ signed (2 * half n) v
to_signed_wide n v h =
    let e : n + 1 - 1 ≡ n = omega arith in
    let full : 2 ^ (n + 1) ≡ 2 * (2 * half n) = omega (arith, pow_wide n h) in
    rw (e, full, pow_half n h)

pub sign_extend_one : (n v : ℕ) → 0 < n → sign_extend n 1 v ≡ widen (half n) v
sign_extend_one n v h = rw (pow_wide n h, pow_half n h)

-- For these widths the constants are well defined.
pub pow-lt_word : (n : ℕ) → n < 64 → 2 ^ n < word_size
pow-lt_word n h =
    omega (arith, pow-le-pow_right {n = 2} (omega arith) {i = n} {j = 63} (omega arith))

pub shl64_one : (n : ℕ) → n < 64 → shl64 1 n ≡ some (2 ^ n)
shl64_one n h =
    let small : 1 * 2 ^ n % word_size ≡ 2 ^ n = omega (arith, pow-lt_word n h) in
    rw (lt→ltb n 64 h, small)

module _ {E : Type 0} {b : Builder E} (m : Meaning b) (n : ℕ) where
  -- An expression of the width with a given value.
  pub record Has (e : E) (v : ℕ) : Type 0 where
    pub width : b.bits_helper e ≡ n
    pub content : m.value e ≡ v

module _ {E : Type 0} {b : Builder E} (m : Meaning b) (n : ℕ) (pos_n : 0 < n) (small : n < 64) where
  byte : u8 n ≡ n
  byte = omega arith

  pub value-sext_one : (e : E) (v : ℕ) → Has m n e v → m.value (b.build_sext e 1) ≡ widen (half n) v
  value-sext_one e v h =
      subst (λ t. 0 < t → m.value (b.build_sext e 1) ≡ sign_extend t 1 (m.value e)) h.width
        (m.value-sext e 1) pos_n
      ∙ ap (sign_extend n 1) h.content
      ∙ sign_extend_one n v pos_n

  pub integer-Has : (v : ℕ) → v < 2 ^ n → Has m n (b.build_integer v n) v
  integer-Has v h = record {
    width = m.bits-integer v n;
    content = m.value-integer v n ∙ mod-eq_of_lt h;
  }

  pub build_min_signed_int_lem : (e : E) × (build_min_signed_int b n ≡ some e) × Has m n e (half n)
  unfolding build_min_signed_int
  build_min_signed_int_lem = (
    b.build_integer (half n) n,
    rw (byte, ==_ne n 0 (λ h. omega arith), shl64_one (n - 1) (omega arith)),
    integer-Has (half n) (omega (arith, pow_half n pos_n, pow_pos (n - 1))),
  )

  pub build_max_signed_int_lem :
      (e : E) × (build_max_signed_int b n ≡ some e) × Has m n e (half n - 1)
  unfolding build_max_signed_int
  build_max_signed_int_lem =
      let halved : (2 ^ n - 1) / 2 ≡ half n - 1 =
        omega (arith, pow_half n pos_n, pow_pos (n - 1)) in
      (
        b.build_integer (half n - 1) n,
        rw (byte, shl64_one n small, halved),
        integer-Has (half n - 1) (omega (arith, pow_half n pos_n, pow_pos (n - 1))),
      )

  pub build_max_unsigned_int_lem :
      (e : E) × (build_max_unsigned_int b n ≡ some e) × Has m n e (2 ^ n - 1)
  unfolding build_max_unsigned_int
  build_max_unsigned_int_lem = (
    b.build_integer (2 ^ n - 1) n,
    rw (byte, shl64_one n small),
    integer-Has (2 ^ n - 1) (omega (arith, pow_pos n)),
  )
