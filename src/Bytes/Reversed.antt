-- ===== src/Bytes/Reversed.antt =====
-- The elements of a reversed list, counted from its other end.
use mathlib.Core.List.{reverse-append}
use sym_cc_modified.Base.{
  ℕ, zero, suc, ◌+◌, ◌≡◌, ◌<◌, refl, ap, ◌∙◌, List, [], ◌∷◌, ◌++◌, arith, length, take, drop,
  reverse, length-append, drop-append,
}

pub length-reverse {ℓ} : {A : Type ℓ} (xs : List A) → length (reverse xs) ≡ length xs
length-reverse [] = refl
length-reverse (x ∷ xs) =
    ap length (reverse-append (x ∷ []) xs)
    ∙ omega (arith, length-append (reverse xs) (x ∷ []), length-reverse xs)

take_one-append {ℓ} :
    {A : Type ℓ} (i : ℕ) (xs ys : List A)
    → i < length xs
    → take 1 (drop i (xs ++ ys)) ≡ take 1 (drop i xs)
take_one-append i [] ys h = elim h [ ]
take_one-append zero (x ∷ xs) ys h = refl
take_one-append (suc i) (x ∷ xs) ys h = take_one-append i xs ys (omega arith)

pub take_one-reverse {ℓ} :
    {A : Type ℓ} (xs : List A) (i j : ℕ)
    → i + j + 1 ≡ length xs
    → take 1 (drop i (reverse xs)) ≡ take 1 (drop j xs)
take_one-reverse [] i j h = absurd (omega arith)
take_one-reverse (x ∷ xs) i zero h =
    let last : i ≡ length (reverse xs) = omega (arith, length-reverse xs) in
    rw (reverse-append (x ∷ []) xs, last, drop-append (reverse xs) (x ∷ []))
take_one-reverse (x ∷ xs) i (suc j) h = rw (reverse-append (x ∷ []) xs) (
    take_one-append i (reverse xs) (x ∷ []) (omega (arith, length-reverse xs))
    ∙ take_one-reverse xs i j (omega arith))
