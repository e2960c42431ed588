-- ===== src/Bytes.antt =====
-- The bytes of a number, most significant first: the order in which the runtime lays the bytes
-- of an aggregate out in one bit vector.
pub mod Slices
pub mod Reversed
use Prim.Native.Nat.add
use native.Mathlib.Nat.{div-lt_iff_lt-mul, mod-lt, div-add-mod}
use sym_cc_modified.Base.{
  subst, pow_pos, pow_add, ℕ, zero, suc, ◌+◌, ◌*◌, ◌/◌, ◌%◌, ◌^◌, ◌<◌, ◌≡◌, refl, sym, ap, ◌∙◌,
  List, [], ◌∷◌, ◌++◌, arith, length, take, drop, ap₂, add-zero, div-div_pow, mod_pow-div,
  mod-mod_pow, join-div, join-mod,
}

byte-shift : (v k r : ℕ) → v / 2 ^ (8 * r) / 2 ^ (8 * k) ≡ v / 2 ^ (8 * (k + r))
byte-shift v k r = div-div_pow v (8 * r) (8 * k) ∙ ap (λ (t : ℕ). v / 2 ^ t) (omega arith)

byte-mod : (v k r : ℕ) → v % 2 ^ (8 * (suc k + r)) / 2 ^ (8 * k) % 256 ≡ v / 2 ^ (8 * k) % 256
byte-mod v k r =
    let e : 8 * (suc k + r) ≡ 8 * k + (8 + 8 * r) = omega arith in
    ap (λ (t : ℕ). v % 2 ^ t / 2 ^ (8 * k) % 256) e
    ∙ ap (λ (t : ℕ). t % 256) (mod_pow-div v (8 * k) (8 + 8 * r))
    ∙ mod-mod_pow (v / 2 ^ (8 * k)) 8 (8 * r)

unfoldable pub to_bytes : ℕ → ℕ → List ℕ
to_bytes zero v = []
to_bytes (suc k) v = (v / 2 ^ (8 * k) % 256) ∷ to_bytes k v

pub length-to_bytes : (k v : ℕ) → length (to_bytes k v) ≡ k
unfolding to_bytes
length-to_bytes zero v = refl
length-to_bytes (suc k) v = ap suc (length-to_bytes k v)

pub drop-to_bytes : (k r v : ℕ) → drop k (to_bytes (k + r) v) ≡ to_bytes r v
unfolding to_bytes
drop-to_bytes zero r v = rw add.zero
drop-to_bytes (suc k) r v = rw add.suc (drop-to_bytes k r v)

pub take-to_bytes : (k r v : ℕ) → take k (to_bytes (k + r) v) ≡ to_bytes k (v / 2 ^ (8 * r))
unfolding to_bytes
take-to_bytes zero r v = refl
take-to_bytes (suc k) r v = rw (add.suc, ← byte-shift v k r, take-to_bytes k r v)

-- Bits above the bytes that are asked for do not matter.
pub to_bytes-mod : (k r v : ℕ) → to_bytes k (v % 2 ^ (8 * (k + r))) ≡ to_bytes k v
unfolding to_bytes
to_bytes-mod zero r v = refl
to_bytes-mod (suc k) r v =
    let e : suc k + r ≡ k + suc r = omega arith in
    ap₂ ◌∷◌ (byte-mod v k r)
      (ap (λ (t : ℕ). to_bytes k (v % 2 ^ (8 * t))) e ∙ to_bytes-mod k (suc r) v)

to_bytes-low : (k x y : ℕ) → y < 2 ^ (8 * k) → to_bytes k (x * 2 ^ (8 * k) + y) ≡ to_bytes k y
to_bytes-low k x y h =
    sym (to_bytes-mod k 0 (x * 2 ^ (8 * k) + y))
    ∙ ap (to_bytes k) (rw add-zero (join-mod x y (8 * k) h))

pub to_bytes-join :
    (j k x y : ℕ)
    → y < 2 ^ (8 * k)
    → to_bytes (j + k) (x * 2 ^ (8 * k) + y) ≡ to_bytes j x ++ to_bytes k y
unfolding to_bytes
to_bytes-join zero k x y h = rw add.zero (to_bytes-low k x y h)
to_bytes-join (suc j) k x y h = rw (
  add.suc,
  ← byte-shift (x * 2 ^ (8 * k) + y) j k,
  join-div x y (8 * k) h,
  to_bytes-join j k x y h,
)

low_bytes : (v k : ℕ) → to_bytes k (v % 2 ^ (8 * k)) ≡ to_bytes k v
low_bytes v k =
    subst (λ t. to_bytes k (v % 2 ^ (8 * t)) ≡ to_bytes k v) add-zero' (to_bytes-mod k 0 v)
  where
    add-zero' : k + 0 ≡ k
    add-zero' = omega arith

top-lt : (v k : ℕ) → v < 2 ^ (8 * suc k) → v / 2 ^ (8 * k) < 256
top-lt v k h =
    (div-lt_iff_lt-mul (pow_pos (8 * k))).1
      (subst (λ t. v < t) (ap (λ (t : ℕ). 2 ^ t) (omega arith) ∙ pow_add 8 (8 * k)) h)

-- A number that fits is determined by its bytes.
pub to_bytes-injective :
    (k v w : ℕ) → v < 2 ^ (8 * k) → w < 2 ^ (8 * k) → to_bytes k v ≡ to_bytes k w → v ≡ w
unfolding to_bytes
to_bytes-injective zero v w p q h = omega arith
to_bytes-injective (suc k) v w p q h =
    let base : ℕ = 2 ^ (8 * k) in
    let top : v / base % 256 ≡ w / base % 256 = cc in
    let rest : to_bytes k v ≡ to_bytes k w = cc in
    let low : v % base ≡ w % base =
      to_bytes-injective k (v % base) (w % base) (mod-lt v (pow_pos (8 * k)))
        (mod-lt w (pow_pos (8 * k))) (low_bytes v k ∙ rest ∙ sym (low_bytes w k)) in
    let high : v / base ≡ w / base = omega (arith, top-lt v k p, top-lt w k q) in
    sym (div-add-mod v base) ∙ ap₂ (λ (s t : ℕ). base * s + t) high low ∙ div-add-mod w base
