-- ===== src/Aggregate/RoundTrip.antt =====
-- What is put into an aggregate is what is taken out of it, and a byte swap undoes itself.
use mathlib.Core.List.{reverse-reverse, reverse-append}
use sym_cc_modified.Base.{
  ℕ, ◌+◌, ◌*◌, ◌%◌, ◌^◌, length-append, ◌≤◌, ◌<◌, ◌≡◌, ◌⊎◌, refl, sym, ap, ◌∙◌, Bool, true, false,
  Option, some, List, [], ◌∷◌, ◌++◌, arith, length, take, drop, reverse, word_size, ◌>>=◌, subst,
  suc, zero, take-append,
}
use sym_cc_modified.Builder.{Builder, Meaning}
use sym_cc_modified.Bytes.{to_bytes-injective}
use sym_cc_modified.Bytes.Slices.{slice, bytes, bytes_of_width, length-bytes}
use sym_cc_modified.Aggregate.{build_extract, build_bswap, build_insert}
use sym_cc_modified.Aggregate.Extraction.{
  HasBytes, Yields, in_order, build_extract-Yields, build_bswap-Yields,
}
use sym_cc_modified.Aggregate.Insertion.{build_insert-Yields}

pub in_order_twice : (little : Bool) (xs : List ℕ) → in_order little (in_order little xs) ≡ xs
in_order_twice true xs = reverse-reverse xs
in_order_twice false xs = refl

length-reverse : (xs : List ℕ) → length (reverse xs) ≡ length xs
length-reverse [] = refl
length-reverse (x ∷ xs) =
    ap length (reverse-append (x ∷ []) xs)
    ∙ omega (arith, length-append (reverse xs) (x ∷ []), length-reverse xs)

length-in_order : (little : Bool) (xs : List ℕ) → length (in_order little xs) ≡ length xs
length-in_order true xs = length-reverse xs
length-in_order false xs = refl

-- The bytes behind `n` others, of which a prefix was `take n`.
slice-behind :
    (n : ℕ) (xs ys zs : List ℕ) → n ≤ length xs → slice n (length ys) (take n xs ++ ys ++ zs) ≡ ys
slice-behind zero xs ys zs h = take-append ys zs
slice-behind (suc n) [] ys zs h = absurd (omega arith)
slice-behind (suc n) (x ∷ xs) ys zs h = slice-behind n xs ys zs (omega arith)

module _ {E : Type 0} {b : Builder E} (m : Meaning b) where
  pub value_of_bytes :
      (e f : E) (k : ℕ)
      → b.bits_helper e ≡ 8 * k
      → b.bits_helper f ≡ 8 * k
      → bytes m e ≡ bytes m f
      → m.value e ≡ m.value f
  value_of_bytes e f k p q same =
      to_bytes-injective k (m.value e) (m.value f) (fits e p) (fits f q)
        (sym (bytes_of_width m e k p) ∙ same ∙ bytes_of_width m f k q)
    where
      fits : (x : E) → b.bits_helper x ≡ 8 * k → m.value x < 2 ^ (8 * k)
      fits x h = subst (λ t. m.value x < 2 ^ t) h (m.value-lt x)

  -- The run ends in an expression of the same width and value as `e`.
  abbrev pub Restores : Option E → E → Type 0
  Restores o e =
      (r : E) × (o ≡ some r) × (b.bits_helper r ≡ b.bits_helper e) × (m.value r ≡ m.value e)

  -- For a width that is a positive multiple of 16 bits, the byte swap of a byte swap succeeds
  -- with the width and value of the expression that was swapped.
  pub build_bswap_twice :
      (e : E) (k : ℕ)
      → 0 < k
      → b.bits_helper e ≡ 16 * k
      → 16 * k < word_size
      → Restores (build_bswap b e >>= build_bswap b) e
  build_bswap_twice e k pos whole small = from (build_bswap-Yields m e k pos whole small)
    where
      again :
          (r : E)
          → HasBytes m r (2 * k) (reverse (bytes m e))
          → Yields m (build_bswap b r) (2 * k) (reverse (bytes m r))
          → Restores (build_bswap b r) e
      again r shape (s, made, last) = (
        s,
        made,
        omega (arith, last.width),
        value_of_bytes s e (2 * k) last.width (omega arith)
            (last.content ∙ ap reverse shape.content ∙ reverse-reverse (bytes m e)),
      )

      from :
          Yields m (build_bswap b e) (2 * k) (reverse (bytes m e))
          → Restores (build_bswap b e >>= build_bswap b) e
      from (r, made, shape) =
          rw made (again r shape (build_bswap-Yields m r k pos (omega (arith, shape.width)) small))

  -- An insertion of a whole number of bytes that lies within an aggregate, of one byte or an even
  -- number of bytes if the order is little endian, succeeds, and extraction at the same place in
  -- the same byte order gives an expression of the width and value that was inserted.
  pub build_extract-build_insert :
      (target to_insert : E) (k j offset : ℕ) (little : Bool)
      → b.bits_helper target ≡ 8 * k
      → 8 * k < word_size
      → b.bits_helper to_insert ≡ 8 * j
      → 0 < j
      → offset + j ≤ k
      → (little ≡ true → (j ≡ 1) ⊎ (j % 2 ≡ 0))
      → Restores
          (build_insert b target to_insert offset little >>= λ r. build_extract b r offset j little)
          to_insert
  build_extract-build_insert target to_insert k j offset little wide small narrow pos fits even =
      from
        (build_insert-Yields m target to_insert k j offset little wide small narrow pos fits even)
    where
      put : List ℕ
      put = in_order little (bytes m to_insert)

      all : List ℕ
      all = take offset (bytes m target) ++ put ++ drop (offset + j) (bytes m target)

      back : in_order little (slice offset j all) ≡ bytes m to_insert
      back =
          let size : length put ≡ j =
            omega (arith, length-in_order little (bytes m to_insert), length-bytes m to_insert) in
          let whole : slice offset j all ≡ put = rw (← size) (
            slice-behind offset (bytes m target) put (drop (offset + length put) (bytes m target))
              (omega (arith, length-bytes m target))) in
          ap (in_order little) whole ∙ in_order_twice little (bytes m to_insert)

      again :
          (r : E)
          → HasBytes m r k all
          → Yields m
              (build_extract b r offset j little)
              j
              (in_order little (slice offset j (bytes m r)))
          → Restores (build_extract b r offset j little) to_insert
      again r shape (s, made, last) = (
        s,
        made,
        omega (arith, last.width),
        value_of_bytes s to_insert j last.width narrow
            (last.content ∙ ap (λ xs. in_order little (slice offset j xs)) shape.content ∙ back),
      )

      from :
          Yields m (build_insert b target to_insert offset little) k all
          → Restores
              (build_insert b target to_insert offset little >>= λ r.
                build_extract b r offset j little)
              to_insert
      from (r, made, shape) =
          rw made
            (again r shape (build_extract-Yields m r k shape.width small offset j little pos fits))
