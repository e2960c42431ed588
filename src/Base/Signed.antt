-- ===== src/Base/Signed.antt =====
-- Two's complement at a half range `h`: the patterns below `h` are the numbers that are not
-- negative, those from `h` to `2 * h` the negative ones.
use native.Mathlib.Nat.{mod-eq_of_lt, mod-eq-sub-mod}
use Prim.Native.Nat.{ℕ, ◌+◌, ◌-◌, ◌*◌, ◌%◌, ◌<◌}
use mathlib.Core.Path.{◌≡◌, ◌∙◌}
use mathlib.Core.Bool.{false}
use mathlib.Core.Logic.{inl, inr}
use native.Mathlib.Omega.{arith}
use sym_cc_modified.Base.Tests.{ltb, if◌then◌else◌, Bool-cases}
use sym_cc_modified.Base.Int.{ℤ, pos, negsuc, sub_ℕ, ◌+ℤ◌, ◌-ℤ◌, leb_ℤ}

abbrev pub signed : ℕ → ℕ → ℤ
signed h v = if ltb v h then pos v else sub_ℕ v (2 * h)

-- The sign repeated once.
abbrev pub widen : ℕ → ℕ → ℕ
widen h v = if ltb v h then v else v + 4 * h - 2 * h

pub mod_once : (x m : ℕ) → x < 2 * m → x % m ≡ (if ltb x m then x else x - m)
mod_once x m p = elim (Bool-cases (ltb x m)) [
  | inl small ↦ rw small (mod-eq_of_lt (ground arith))
  | inr large ↦ rw large (mod-eq-sub-mod (ground arith) ∙ mod-eq_of_lt (ground arith))
]

widen-lt : (h v : ℕ) → v < 2 * h → widen h v < 4 * h
widen-lt h v p = ground arith

pub signed-widen_add :
    (h v w : ℕ)
    → v < 2 * h
    → w < 2 * h
    → signed (2 * h) ((widen h v + widen h w) % (4 * h)) ≡ signed h v +ℤ signed h w
signed-widen_add h v w p q =
    rw (mod_once (widen h v + widen h w) (4 * h) (omega (arith, widen-lt h v p, widen-lt h w q)))
      (ground arith)

pub signed-widen_sub :
    (h v w : ℕ)
    → v < 2 * h
    → w < 2 * h
    → signed (2 * h) ((widen h v + 4 * h - widen h w) % (4 * h)) ≡ signed h v -ℤ signed h w
signed-widen_sub h v w p q =
    rw
      (mod_once (widen h v + 4 * h - widen h w) (4 * h)
        (omega (arith, widen-lt h v p, widen-lt h w q)))
      (ground arith)

pub signed-add :
    (h v w : ℕ)
    → v < 2 * h
    → w < 2 * h
    → leb_ℤ (signed h v +ℤ signed h w) (negsuc (h - 1)) ≡ false
    → leb_ℤ (pos (h - 1)) (signed h v +ℤ signed h w) ≡ false
    → signed h ((v + w) % (2 * h)) ≡ signed h v +ℤ signed h w
signed-add h v w p q lo hi = rw (mod_once (v + w) (2 * h) (omega arith)) (ground arith)

pub signed-sub :
    (h v w : ℕ)
    → v < 2 * h
    → w < 2 * h
    → leb_ℤ (signed h v -ℤ signed h w) (negsuc (h - 1)) ≡ false
    → leb_ℤ (pos (h - 1)) (signed h v -ℤ signed h w) ≡ false
    → signed h ((v + 2 * h - w) % (2 * h)) ≡ signed h v -ℤ signed h w
signed-sub h v w p q lo hi = rw (mod_once (v + 2 * h - w) (2 * h) (omega arith)) (ground arith)
