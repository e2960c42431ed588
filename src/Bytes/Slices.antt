-- ===== src/Bytes/Slices.antt =====
-- The bytes of an expression, and what concatenation and extraction do to them.
use sym_cc_modified.Base.{
  ℕ, zero, suc, ◌+◌, ◌-◌, ◌*◌, ◌/◌, ◌%◌, ◌^◌, ◌≤◌, ◌<◌, ◌≡◌, refl, sym, ap, ◌∙◌, List, [], ◌∷◌,
  ◌++◌, arith, length, take, drop, reverse, reverse-append, subst, ap₂,
}
use sym_cc_modified.Builder.{Builder, Meaning}
use sym_cc_modified.Bytes.{
  to_bytes, length-to_bytes, drop-to_bytes, take-to_bytes, to_bytes-mod, to_bytes-join,
}

abbrev pub slice {ℓ} : {A : Type ℓ} → ℕ → ℕ → List A → List A
slice offset n xs = take n (drop offset xs)

pub slice-to_bytes :
    (offset n rest v : ℕ)
    → slice offset n (to_bytes (offset + (n + rest)) v) ≡ to_bytes n (v / 2 ^ (8 * rest))
slice-to_bytes offset n rest v =
    ap (take n) (drop-to_bytes offset (n + rest) v) ∙ take-to_bytes n rest v

take-suc {ℓ} :
    {A : Type ℓ} (i : ℕ) (xs : List A) → take (suc i) xs ≡ take i xs ++ take 1 (drop i xs)
take-suc zero xs = refl
take-suc (suc i) [] = refl
take-suc (suc i) (x ∷ xs) = ap (λ t. x ∷ t) (take-suc i xs)

pub reverse-take_one {ℓ} : {A : Type ℓ} (xs : List A) → reverse (take 1 xs) ≡ take 1 xs
reverse-take_one [] = refl
reverse-take_one (x ∷ xs) = refl

-- One more byte in front of a reversed slice.
pub reverse-take-suc {ℓ} :
    {A : Type ℓ} (i : ℕ) (xs : List A)
    → reverse (take (suc i) xs) ≡ take 1 (drop i xs) ++ reverse (take i xs)
reverse-take-suc i xs = rw (take-suc i xs, reverse-append (take i xs), reverse-take_one (drop i xs))

module _ {E : Type 0} {b : Builder E} (m : Meaning b) where
  unfoldable pub bytes : E → List ℕ
  bytes e = to_bytes (b.bits_helper e / 8) (m.value e)

  pub bytes_of_width : (e : E) (k : ℕ) → b.bits_helper e ≡ 8 * k → bytes e ≡ to_bytes k (m.value e)
  unfolding bytes
  bytes_of_width e k h = ap (λ (t : ℕ). to_bytes t (m.value e)) (omega arith)

  pub length-bytes : (e : E) → length (bytes e) ≡ b.bits_helper e / 8
  unfolding bytes
  length-bytes e = length-to_bytes (b.bits_helper e / 8) (m.value e)

  pub bytes-concat_helper :
      (x y : E) (j k : ℕ)
      → b.bits_helper x ≡ 8 * j
      → b.bits_helper y ≡ 8 * k
      → bytes (b.concat_helper x y) ≡ bytes x ++ bytes y
  bytes-concat_helper x y j k p q =
      let wide : b.bits_helper (b.concat_helper x y) ≡ 8 * (j + k) =
        omega (arith, m.bits-concat x y) in
      let low : m.value y < 2 ^ (8 * k) = subst (λ t. m.value y < 2 ^ t) q (m.value-lt y) in
      let joined : m.value (b.concat_helper x y) ≡ m.value x * 2 ^ (8 * k) + m.value y =
        subst (λ t. m.value (b.concat_helper x y) ≡ m.value x * 2 ^ t + m.value y) q
          (m.value-concat x y) in
      rw (bytes_of_width _ (j + k) wide, bytes_of_width x j p, bytes_of_width y k q, joined)
        (to_bytes-join j k (m.value x) (m.value y) low)

  -- Extraction of `n` bytes that stand `offset` bytes behind the most significant one.
  pub bytes-extract_helper :
      (e : E) (offset n rest first last : ℕ)
      → b.bits_helper e ≡ 8 * (offset + (n + rest))
      → 0 < n
      → last ≡ 8 * rest
      → first ≡ 8 * (n + rest) - 1
      → (b.bits_helper (b.extract_helper e first last) ≡ 8 * n)
        × (bytes (b.extract_helper e first last) ≡ slice offset n (bytes e))
  bytes-extract_helper e offset n rest first last w pos l f =
      let down : last ≤ first = omega arith in
      let inside : first < b.bits_helper e = omega arith in
      let wide : b.bits_helper (b.extract_helper e first last) ≡ 8 * n =
        omega (arith, m.bits-extract e first last down inside) in
      let cut : first - last + 1 ≡ 8 * (n + 0) = omega arith in
      let part : m.value (b.extract_helper e first last)
          ≡ m.value e / 2 ^ (8 * rest) % 2 ^ (8 * (n + 0)) =
        m.value-extract e first last down inside
        ∙ ap₂ (λ (s t : ℕ). m.value e / 2 ^ s % 2 ^ t) l cut in
      (
        wide,
        rw (bytes_of_width _ n wide, bytes_of_width e (offset + (n + rest)) w, part)
            (to_bytes-mod n 0 (m.value e / 2 ^ (8 * rest))
              ∙ sym (slice-to_bytes offset n rest (m.value e))),
      )
