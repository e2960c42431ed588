-- ===== src/Builder/Word.antt =====
-- A backend whose expressions are constants: a width and a number. It meets the laws of
-- `Meaning`, and evaluates what the runtime builds.
use native.Mathlib.Nat.{mod-lt, mod-eq_of_lt, pow-le-pow_right}
use sym_cc_modified.Base.{
  ℕ, ◌+◌, ◌-◌, ◌*◌, ◌/◌, ◌%◌, ◌^◌, ◌≤◌, ◌<◌, ◌≡◌, refl, sym, Bool, true, false, arith, leb, ◌==◌,
  if◌then◌else◌, pow_pos, pow_add, subst,
}
use sym_cc_modified.Base.Int.{ℤ, pos, negsuc, sub_ℕ, pos_part, neg_part, leb_ℤ, to_signed}
use sym_cc_modified.Builder.{Builder, Meaning, bit, sign_extend}

pub record Word : Type 0 where
  pub bits : ℕ
  pub raw : ℕ

abbrev pub word_value : Word → ℕ
word_value w = w.raw % 2 ^ w.bits

-- Arithmetic at the width of the first operand.
abbrev arithmetic : (ℕ → ℕ → ℕ → ℕ) → Word → Word → Word
arithmetic f x y = record { bits = x.bits; raw = f (2 ^ x.bits) (word_value x) (word_value y) }

abbrev test : (ℕ → ℕ → ℕ → Bool) → Word → Word → Word
test f x y = record { bits = 1; raw = bit (f x.bits (word_value x) (word_value y)) }

-- Division of integers towards zero, and the pattern of an integer.
abbrev divide : ℤ → ℤ → ℤ
divide (pos a) (pos b) = pos (a / b)
divide (pos a) (negsuc b) = sub_ℕ 0 (a / (b + 1))
divide (negsuc a) (pos b) = sub_ℕ 0 ((a + 1) / b)
divide (negsuc a) (negsuc b) = pos ((a + 1) / (b + 1))

abbrev remainder : ℤ → ℤ → ℤ
remainder (pos a) b = pos (a % (pos_part b + neg_part b))
remainder (negsuc a) b = sub_ℕ 0 ((a + 1) % (pos_part b + neg_part b))

abbrev signed_pattern : ℕ → ℤ → Word
signed_pattern n (pos v) = record { bits = n; raw = v }
signed_pattern n (negsuc v) = record { bits = n; raw = 2 ^ n - v - 1 }

abbrev pub word_builder : Builder Word
word_builder = record {
  build_integer = λ v n. record { bits = n; raw = v };
  build_true = record { bits = 1; raw = 1 };
  build_neg = λ x. record { bits = x.bits; raw = 2 ^ x.bits - word_value x };
  build_add = arithmetic (λ p v w. v + w);
  build_sub = arithmetic (λ p v w. v + p - w);
  build_mul = arithmetic (λ p v w. v * w);
  build_unsigned_div = arithmetic (λ p v w. v / w);
  build_signed_div = λ x y.
      signed_pattern x.bits
        (divide (to_signed x.bits (word_value x)) (to_signed x.bits (word_value y)));
  build_unsigned_rem = arithmetic (λ p v w. v % w);
  build_signed_rem = λ x y.
      signed_pattern x.bits
        (remainder (to_signed x.bits (word_value x)) (to_signed x.bits (word_value y)));
  build_shift_left = λ x y. record { bits = x.bits; raw = word_value x * 2 ^ word_value y };
  build_logical_shift_right =
      λ x y. record { bits = x.bits; raw = word_value x / 2 ^ word_value y };
  build_arithmetic_shift_right = λ x y. record {
    bits = x.bits;
    raw = sign_extend x.bits (word_value y) (word_value x) / 2 ^ word_value y;
  };
  build_signed_less_equal = test (λ n v w. leb_ℤ (to_signed n v) (to_signed n w));
  build_signed_greater_equal = test (λ n v w. leb_ℤ (to_signed n w) (to_signed n v));
  build_unsigned_greater_equal = test (λ n v w. leb w v);
  build_equal = test (λ n v w. v == w);
  build_not_equal = λ x y. record { bits = 1; raw = 1 - bit (word_value x == word_value y) };
  build_bool_and = λ x y. record { bits = 1; raw = word_value x * word_value y };
  build_ite = λ c x y. record {
    bits = x.bits;
    raw = if word_value c == 0 then word_value y else word_value x;
  };
  build_sext = λ x k. record { bits = x.bits + k; raw = sign_extend x.bits k (word_value x) };
  build_zext = λ x k. record { bits = x.bits + k; raw = word_value x };
  build_trunc = λ x k. record { bits = k; raw = word_value x };
  build_bool_to_bit = λ x. record { bits = 1; raw = word_value x };
  concat_helper =
      λ x y. record { bits = x.bits + y.bits; raw = word_value x * 2 ^ y.bits + word_value y };
  extract_helper =
      λ x first last. record { bits = first - last + 1; raw = word_value x / 2 ^ last };
  bits_helper = λ x. x.bits;
}

pub word_value-lt : (w : Word) → word_value w < 2 ^ w.bits
word_value-lt w = mod-lt w.raw (pow_pos w.bits)

pub pow_grows : (n k : ℕ) → 2 ^ n ≤ 2 ^ (n + k)
pow_grows n k = pow-le-pow_right (omega arith) (omega arith)

pub joined-lt : (x y n k : ℕ) → x < 2 ^ n → y < 2 ^ k → x * 2 ^ k + y < 2 ^ (n + k)
joined-lt x y n k p q = rw pow_add (grind arith)

pub sign_extend-lt : (n k v : ℕ) → v < 2 ^ n → sign_extend n k v < 2 ^ (n + k)
sign_extend-lt n k v h = ground (arith, pow_grows n k)

pub bit-mod : (c : Bool) → bit c % 2 ≡ bit c
bit-mod true = refl
bit-mod false = refl

pub not_bit-mod : (c : Bool) → (1 - bit c) % 2 ≡ 1 - bit c
not_bit-mod true = refl
not_bit-mod false = refl

pub word_ite-lt :
    (c x y : Word)
    → x.bits ≡ y.bits
    → (if word_value c == 0 then word_value y else word_value x) < 2 ^ x.bits
word_ite-lt c x y h =
    ground (arith, word_value-lt x, subst (λ n. word_value y < 2 ^ n) (sym h) (word_value-lt y))

unfoldable pub word_meaning : Meaning word_builder
word_meaning = record {
  value = word_value;
  value-lt = word_value-lt;
  bits-integer = λ v n. refl;
  value-integer = λ v n. refl;
  bits-concat = λ x y. refl;
  value-concat =
      λ x y. mod-eq_of_lt (joined-lt _ _ x.bits y.bits (word_value-lt x) (word_value-lt y));
  bits-extract = λ e first last p q. refl;
  value-extract = λ e first last p q. refl;
  bits-add = λ x y h. refl;
  value-add = λ x y h. refl;
  bits-sub = λ x y h. refl;
  value-sub = λ x y h. refl;
  bits-mul = λ x y h. refl;
  value-mul = λ x y h. refl;
  bits-zext = λ e n. refl;
  value-zext = λ e n. mod-eq_of_lt (omega (arith, word_value-lt e, pow_grows e.bits n));
  bits-sext = λ e n. refl;
  value-sext = λ e n pos. mod-eq_of_lt (sign_extend-lt e.bits n (word_value e) (word_value-lt e));
  bits-ite = λ c x y h. refl;
  value-ite = λ c x y h. mod-eq_of_lt (word_ite-lt c x y h);
  value-equal = λ x y h. bit-mod (word_value x == word_value y);
  value-not_equal = λ x y h. not_bit-mod (word_value x == word_value y);
  value-signed_less_equal =
      λ x y h. bit-mod (leb_ℤ (to_signed x.bits (word_value x)) (to_signed x.bits (word_value y)));
  value-signed_greater_equal =
      λ x y h. bit-mod (leb_ℤ (to_signed x.bits (word_value y)) (to_signed x.bits (word_value x)));
  value-unsigned_greater_equal = λ x y h. bit-mod (leb (word_value y) (word_value x));
  bits-bool_to_bit = λ c. refl;
  value-bool_to_bit = λ c h. mod-eq_of_lt (omega arith);
  value-true = refl;
  bits-shift_left = λ x y h. refl;
  value-shift_left = λ x y h. refl;
  bits-arithmetic_shift_right = λ x y h. refl;
  value-arithmetic_shift_right = λ x y h. refl;
}
