-- ===== src/Base/Powers.antt =====
-- Powers of two: the laws that the arithmetic tactics lack, and division by such powers.
use Prim.Native.Nat.{ℕ, zero, suc, ◌+◌, ◌*◌, ◌/◌, ◌%◌, ◌^◌, ◌<◌}
use mathlib.Core.Path.{◌≡◌, ap, sym, ◌∙◌}
use native.Mathlib.Omega.{arith}
use native.Mathlib.Numerals.{towards_suc}
use native.Mathlib.Nat.{
  pow-suc, one-le-pow, div-div-eq-div-mul, mul-add-div_right, mul-add-mod_self_right, div-eq_of_lt,
  mod-eq_of_lt, div-add-mod, mod-lt, div-lt_iff_lt-mul, add-zero, add-suc, mul_assoc, mul-add-div,
  mod-mod_of_dvd, dvd-mul_right, mul-pos, mul-add-mod_self_left,
}

pub pow_pos : (k : ℕ) → 0 < 2 ^ k
pow_pos k = one-le-pow k 2 (omega arith)

pub pow_double : (k : ℕ) → 2 ^ (k + 1) ≡ 2 * 2 ^ k
pow_double k = simp towards_suc (omega (arith, pow-suc 2 k))

pub pow_add : (j k : ℕ) → 2 ^ (j + k) ≡ 2 ^ j * 2 ^ k
pow_add j zero = rw add-zero (omega arith)
pow_add j (suc k) =
    rw (add-suc, pow-suc 2 (j + k), pow-suc 2 k)
      (omega (arith, ap (λ (t : ℕ). t * 2) (pow_add j k)))

pub div-div_pow : (v j k : ℕ) → v / 2 ^ j / 2 ^ k ≡ v / 2 ^ (j + k)
div-div_pow v j k = rw pow_add (div-div-eq-div-mul v (2 ^ j) (2 ^ k))

-- The low part cut off before or after a division.
pub mod-mul-div : (v a b : ℕ) → 0 < a → 0 < b → v % (a * b) / a ≡ v / a % b
mod-mul-div v a b p q =
    let r : ℕ = v % (a * b) in
    let split : a * (b * (v / (a * b))) + r ≡ v =
      omega (arith, div-add-mod v (a * b), mul_assoc a b (v / (a * b))) in
    let high : v / a ≡ b * (v / (a * b)) + r / a =
      ap (λ (t : ℕ). t / a) (sym split) ∙ mul-add-div p (b * (v / (a * b))) r in
    let small : r / a < b = (div-lt_iff_lt-mul p).1 (omega (arith, mod-lt v (mul-pos p q))) in
    rw high (sym (mul-add-mod_self_left b (v / (a * b)) (r / a) ∙ mod-eq_of_lt small))

pub mod_pow-div : (v j k : ℕ) → v % 2 ^ (j + k) / 2 ^ j ≡ v / 2 ^ j % 2 ^ k
mod_pow-div v j k = rw pow_add (mod-mul-div v (2 ^ j) (2 ^ k) (pow_pos j) (pow_pos k))

pub mod-mod_pow : (v j k : ℕ) → v % 2 ^ (j + k) % 2 ^ j ≡ v % 2 ^ j
mod-mod_pow v j k = rw pow_add (mod-mod_of_dvd (2 ^ j) v (dvd-mul_right (2 ^ j) (2 ^ k)))

-- A high part and a low part, taken apart again.
pub join-div : (x y k : ℕ) → y < 2 ^ k → (x * 2 ^ k + y) / 2 ^ k ≡ x
join-div x y k h = omega (arith, mul-add-div_right (pow_pos k) x y, div-eq_of_lt h)

pub join-mod : (x y k : ℕ) → y < 2 ^ k → (x * 2 ^ k + y) % 2 ^ k ≡ y
join-mod x y k h = mul-add-mod_self_right x (2 ^ k) y ∙ mod-eq_of_lt h
