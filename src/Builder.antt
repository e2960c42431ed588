-- ===== src/Builder.antt =====
-- The expression builders that runtime/RuntimeCommon.h declares and a backend implements, as an
-- interface, and what their expressions mean. A backend hands its expressions to Z3 or to QSYM,
-- neither of which is part of this repository.
pub mod Word
use sym_cc_modified.Base.{
  ℕ, ◌+◌, ◌-◌, ◌*◌, ◌/◌, ◌%◌, ◌^◌, ◌≤◌, ◌<◌, ◌≡◌, Bool, ltb, leb, ◌==◌, if◌then◌else◌,
}
use sym_cc_modified.Base.Int.{leb_ℤ, to_signed}

-- The operations take expressions that are not null. `SymExpr` itself is `Option E`.
pub record Builder (E : Type 0) : Type 0 where
  pub build_integer : ℕ → ℕ → E
  pub build_true : E
  pub build_neg : E → E
  pub build_add : E → E → E
  pub build_sub : E → E → E
  pub build_mul : E → E → E
  pub build_unsigned_div : E → E → E
  pub build_signed_div : E → E → E
  pub build_unsigned_rem : E → E → E
  pub build_signed_rem : E → E → E
  pub build_shift_left : E → E → E
  pub build_logical_shift_right : E → E → E
  pub build_arithmetic_shift_right : E → E → E
  pub build_signed_less_equal : E → E → E
  pub build_signed_greater_equal : E → E → E
  pub build_unsigned_greater_equal : E → E → E
  pub build_equal : E → E → E
  pub build_not_equal : E → E → E
  pub build_bool_and : E → E → E
  pub build_ite : E → E → E → E
  pub build_sext : E → ℕ → E
  pub build_zext : E → ℕ → E
  pub build_trunc : E → ℕ → E
  pub build_bool_to_bit : E → E
  pub concat_helper : E → E → E
  pub extract_helper : E → ℕ → ℕ → E
  pub bits_helper : E → ℕ

-- The value of a Boolean expression.
abbrev pub bit : Bool → ℕ
bit b = if b then 1 else 0

-- The value of `sext`: the top bit is repeated.
abbrev pub sign_extend : ℕ → ℕ → ℕ → ℕ
sign_extend n k v = if ltb v (2 ^ (n - 1)) then v else v + 2 ^ (n + k) - 2 ^ n

-- What SMT-LIB's theory of bit vectors says of the operations, under one assignment of the
-- input bytes. Nothing is said of operands whose widths differ, or of bits out of range.
pub record Meaning {E : Type 0} (b : Builder E) : Type 0 where
  pub value : E → ℕ
  pub value-lt : (e : E) → value e < 2 ^ b.bits_helper e
  pub bits-integer : (v n : ℕ) → b.bits_helper (b.build_integer v n) ≡ n
  pub value-integer : (v n : ℕ) → value (b.build_integer v n) ≡ v % 2 ^ n
  pub bits-concat :
      (x y : E) → b.bits_helper (b.concat_helper x y) ≡ b.bits_helper x + b.bits_helper y
  pub value-concat :
      (x y : E) → value (b.concat_helper x y) ≡ value x * 2 ^ b.bits_helper y + value y
  pub bits-extract :
      (e : E) (first last : ℕ)
      → last ≤ first
      → first < b.bits_helper e
      → b.bits_helper (b.extract_helper e first last) ≡ first - last + 1
  pub value-extract :
      (e : E) (first last : ℕ)
      → last ≤ first
      → first < b.bits_helper e
      → value (b.extract_helper e first last) ≡ value e / 2 ^ last % 2 ^ (first - last + 1)
  pub bits-add :
      (x y : E)
      → b.bits_helper x ≡ b.bits_helper y
      → b.bits_helper (b.build_add x y) ≡ b.bits_helper x
  pub value-add :
      (x y : E)
      → b.bits_helper x ≡ b.bits_helper y
      → value (b.build_add x y) ≡ (value x + value y) % 2 ^ b.bits_helper x
  pub bits-sub :
      (x y : E)
      → b.bits_helper x ≡ b.bits_helper y
      → b.bits_helper (b.build_sub x y) ≡ b.bits_helper x
  pub value-sub :
      (x y : E)
      → b.bits_helper x ≡ b.bits_helper y
      → value (b.build_sub x y) ≡ (value x + 2 ^ b.bits_helper x - value y) % 2 ^ b.bits_helper x
  pub bits-mul :
      (x y : E)
      → b.bits_helper x ≡ b.bits_helper y
      → b.bits_helper (b.build_mul x y) ≡ b.bits_helper x
  pub value-mul :
      (x y : E)
      → b.bits_helper x ≡ b.bits_helper y
      → value (b.build_mul x y) ≡ value x * value y % 2 ^ b.bits_helper x
  pub bits-zext : (e : E) (n : ℕ) → b.bits_helper (b.build_zext e n) ≡ b.bits_helper e + n
  pub value-zext : (e : E) (n : ℕ) → value (b.build_zext e n) ≡ value e
  pub bits-sext : (e : E) (n : ℕ) → b.bits_helper (b.build_sext e n) ≡ b.bits_helper e + n
  pub value-sext :
      (e : E) (n : ℕ)
      → 0 < b.bits_helper e
      → value (b.build_sext e n) ≡ sign_extend (b.bits_helper e) n (value e)
  pub bits-ite :
      (c x y : E)
      → b.bits_helper x ≡ b.bits_helper y
      → b.bits_helper (b.build_ite c x y) ≡ b.bits_helper x
  pub value-ite :
      (c x y : E)
      → b.bits_helper x ≡ b.bits_helper y
      → value (b.build_ite c x y) ≡ (if value c == 0 then value y else value x)
  pub value-equal :
      (x y : E)
      → b.bits_helper x ≡ b.bits_helper y
      → value (b.build_equal x y) ≡ bit (value x == value y)
  pub value-not_equal :
      (x y : E)
      → b.bits_helper x ≡ b.bits_helper y
      → value (b.build_not_equal x y) ≡ 1 - bit (value x == value y)
  pub value-signed_less_equal :
      (x y : E)
      → b.bits_helper x ≡ b.bits_helper y
      → value (b.build_signed_less_equal x y)
        ≡ bit
            (leb_ℤ (to_signed (b.bits_helper x) (value x)) (to_signed (b.bits_helper x) (value y)))
  pub value-signed_greater_equal :
      (x y : E)
      → b.bits_helper x ≡ b.bits_helper y
      → value (b.build_signed_greater_equal x y)
        ≡ bit
            (leb_ℤ (to_signed (b.bits_helper x) (value y)) (to_signed (b.bits_helper x) (value x)))
  pub value-unsigned_greater_equal :
      (x y : E)
      → b.bits_helper x ≡ b.bits_helper y
      → value (b.build_unsigned_greater_equal x y) ≡ bit (leb (value y) (value x))
  pub bits-bool_to_bit : (c : E) → b.bits_helper (b.build_bool_to_bit c) ≡ 1
  pub value-bool_to_bit : (c : E) → value c ≤ 1 → value (b.build_bool_to_bit c) ≡ value c
  pub value-true : value b.build_true ≡ 1
  pub bits-shift_left :
      (x y : E)
      → b.bits_helper x ≡ b.bits_helper y
      → b.bits_helper (b.build_shift_left x y) ≡ b.bits_helper x
  pub value-shift_left :
      (x y : E)
      → b.bits_helper x ≡ b.bits_helper y
      → value (b.build_shift_left x y) ≡ value x * 2 ^ value y % 2 ^ b.bits_helper x
  pub bits-arithmetic_shift_right :
      (x y : E)
      → b.bits_helper x ≡ b.bits_helper y
      → b.bits_helper (b.build_arithmetic_shift_right x y) ≡ b.bits_helper x
  pub value-arithmetic_shift_right :
      (x y : E)
      → b.bits_helper x ≡ b.bits_helper y
      → value (b.build_arithmetic_shift_right x y)
        ≡ sign_extend (b.bits_helper x) (value y) (value x) / 2 ^ value y % 2 ^ b.bits_helper x
