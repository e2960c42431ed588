-- ===== src/Aggregate/Extraction.antt =====
-- Extraction and byte swap on the bytes of an aggregate.
use sym_cc_modified.Base.{
  ℕ, zero, suc, ◌+◌, ◌-◌, ◌*◌, ◌/◌, ◌%◌, ◌≤◌, ◌<◌, ◌≡◌, refl, sym, ap, ap₂, ◌∙◌, Bool, true, false,
  Option, some, List, ◌++◌, arith, length, take, take_all, drop, reverse, drop-drop, subst, ◌==◌,
  ==_ne, ◌≢◌, none, add-zero, word_size, sub64, add64, mul64,
}
use sym_cc_modified.Builder.{Builder, Meaning}
use sym_cc_modified.Bytes.Slices.{
  slice, bytes, bytes-concat_helper, bytes-extract_helper, reverse-take-suc, reverse-take_one,
  length-bytes,
}
use sym_cc_modified.Aggregate.{
  extract_byte, extract_bytes, extract_little, extract_big, build_extract, build_bswap,
}

module _ {E : Type 0} {b : Builder E} (m : Meaning b) where
  -- An expression of `n` bytes, which are `xs`.
  pub record HasBytes (e : E) (n : ℕ) (xs : List ℕ) : Type 0 where
    pub width : b.bits_helper e ≡ 8 * n
    pub content : bytes m e ≡ xs

-- A run that ends in an expression of `n` bytes, which are `xs`.
abbrev pub Yields : {E : Type 0} {b : Builder E} → Meaning b → Option E → ℕ → List ℕ → Type 0
Yields {E} m o n xs = (r : E) × (o ≡ some r) × HasBytes m r n xs

-- The bytes of a number in the order that it is stored in.
abbrev pub in_order : Bool → List ℕ → List ℕ
in_order true xs = reverse xs
in_order false xs = xs

module _ {E : Type 0} {b : Builder E} (m : Meaning b) (e : E) (k : ℕ)
    (whole : b.bits_helper e ≡ 8 * k) (small : 8 * k < word_size) where
  extract_big-HasBytes :
      (offset n : ℕ)
      → 0 < n
      → offset + n ≤ k
      → HasBytes m (extract_big b e (8 * k) offset n) n (slice offset n (bytes m e))
  unfolding extract_big
  extract_big-HasBytes offset n pos fits =
      let cut =
        bytes-extract_helper m e offset n (k - (offset + n))
          (sub64 (sub64 (8 * k) (mul64 offset 8)) 1) (sub64 (8 * k) (mul64 (add64 offset n) 8))
          (omega arith) pos (omega arith) (omega arith) in
      record { width = cut.0; content = cut.1 }

  extract_byte-HasBytes :
      (offset i : ℕ)
      → offset + i < k
      → HasBytes m (extract_byte b e (8 * k) offset i) 1 (take 1 (drop (offset + i) (bytes m e)))
  unfolding extract_byte
  extract_byte-HasBytes offset i fits =
      let cut =
        bytes-extract_helper m e (offset + i) 1 (k - (offset + i + 1))
          (sub64 (sub64 (8 * k) (mul64 (add64 offset i) 8)) 1)
          (sub64 (8 * k) (mul64 (add64 (add64 offset i) 1) 8)) (omega arith) (omega arith)
          (omega arith) (omega arith) in
      record { width = cut.0; content = cut.1 }

  extract_bytes-HasBytes :
      (offset rounds i : ℕ) (result : E)
      → offset + (i + rounds) ≤ k
      → HasBytes m result i (reverse (slice offset i (bytes m e)))
      → HasBytes m
          (extract_bytes b e (8 * k) offset rounds i result)
          (i + rounds)
          (reverse (slice offset (i + rounds) (bytes m e)))
  unfolding extract_bytes
  extract_bytes-HasBytes offset zero i result fits h = rw add-zero h
  extract_bytes-HasBytes offset (suc rounds) i result fits h =
      let byte = extract_byte-HasBytes offset i (omega arith) in
      let one_more : suc i ≡ i + 1 = omega arith in
      let next : HasBytes m (b.concat_helper (extract_byte b e (8 * k) offset i) result) (i + 1)
          (reverse (slice offset (i + 1) (bytes m e))) =
        record {
          width = omega (
            arith,
            byte.width,
            h.width,
            m.bits-concat (extract_byte b e (8 * k) offset i) result,
          );
          content =
              bytes-concat_helper m _ result 1 i byte.width h.width
              ∙ ap₂ ◌++◌ (byte.content ∙ ap (take 1) (sym (drop-drop i offset (bytes m e))))
                  h.content
              ∙ sym (reverse-take-suc i (drop offset (bytes m e)))
              ∙ ap (λ (t : ℕ). reverse (take t (drop offset (bytes m e)))) one_more;
        } in
      let e' : i + 1 + rounds ≡ i + suc rounds = omega arith in
      rw (← e') (extract_bytes-HasBytes offset rounds (i + 1) _ (omega arith) next)

  extract_little-HasBytes :
      (offset n : ℕ)
      → 0 < n
      → offset + n ≤ k
      → HasBytes m (extract_little b e (8 * k) offset n) n (reverse (slice offset n (bytes m e)))
  unfolding extract_little
  extract_little-HasBytes offset n pos fits =
      let first =
        bytes-extract_helper m e offset 1 (k - (offset + 1))
          (sub64 (sub64 (8 * k) (mul64 offset 8)) 1) (sub64 (sub64 (8 * k) (mul64 offset 8)) 8)
          (omega arith) (omega arith) (omega arith) (omega arith) in
      let start : HasBytes m
          (b.extract_helper e (sub64 (sub64 (8 * k) (mul64 offset 8)) 1)
            (sub64 (sub64 (8 * k) (mul64 offset 8)) 8))
          1 (reverse (slice offset 1 (bytes m e))) =
        record {
          width = first.0;
          content = first.1 ∙ sym (reverse-take_one (drop offset (bytes m e)));
        } in
      let e' : 1 + (n - 1) ≡ n = omega arith in
      subst
        (λ t.
          HasBytes m
            (extract_bytes b e (8 * k) offset (n - 1) 1 (
              b.extract_helper e (sub64 (sub64 (8 * k) (mul64 offset 8)) 1)
                (sub64 (sub64 (8 * k) (mul64 offset 8)) 8)))
            t (reverse (slice offset t (bytes m e))))
        e' (extract_bytes-HasBytes offset (n - 1) 1 _ (omega arith) start)

  test : (b.bits_helper e % 8 == 0) ≡ true
  test = ground arith

  -- For an aggregate of whole bytes, extraction of one or more bytes that lie within it succeeds
  -- with an expression of those bytes, in the byte order asked for.
  pub build_extract-Yields :
      (offset n : ℕ) (little : Bool)
      → 0 < n
      → offset + n ≤ k
      → Yields m
          (build_extract b e offset n little)
          n
          (in_order little (slice offset n (bytes m e)))
  unfolding build_extract
  build_extract-Yields offset n true pos fits = (
    extract_little b e (8 * k) offset n,
    rw (test, whole),
    extract_little-HasBytes offset n pos fits,
  )
  build_extract-Yields offset n false pos fits =
      (extract_big b e (8 * k) offset n, rw (test, whole), extract_big-HasBytes offset n pos fits)

pub take_whole : {A : Type 0} (xs : List A) (n : ℕ) → length xs ≡ n → take n xs ≡ xs
take_whole xs n h = rw (← h) (take_all xs)

module _ {E : Type 0} {b : Builder E} (m : Meaning b) where
  pub Yields-eq :
      {o p : Option E} {n j : ℕ} {xs ys : List ℕ}
      → p ≡ o
      → n ≡ j
      → xs ≡ ys
      → Yields m o n xs
      → Yields m p j ys
  Yields-eq po nj xy (r, made, shape) = (
    r,
    po ∙ made,
    record { width = shape.width ∙ ap (λ (t : ℕ). 8 * t) nj; content = shape.content ∙ xy },
  )

  -- The byte swap of an expression whose width is a positive multiple of 16 bits succeeds and
  -- reverses the bytes.
  pub build_bswap-Yields :
      (e : E) (k : ℕ)
      → 0 < k
      → b.bits_helper e ≡ 16 * k
      → 16 * k < word_size
      → Yields m (build_bswap b e) (2 * k) (reverse (bytes m e))
  unfolding build_bswap
  build_bswap-Yields e k pos whole small =
      let test : (b.bits_helper e % 16 == 0) ≡ true = ground arith in
      let half : b.bits_helper e / 8 ≡ 2 * k = omega arith in
      Yields-eq (rw (test, half)) refl
        (ap reverse (take_whole (bytes m e) (2 * k) (omega (arith, length-bytes m e))))
        (build_extract-Yields m e (2 * k) (omega arith) (omega arith) 0 (2 * k) true (omega arith)
          (omega arith))

-- The byte swap of another width fails an assertion.
pub build_bswap-odd :
    {E : Type 0} (b : Builder E) (e : E) → b.bits_helper e % 16 ≢ 0 → build_bswap b e ≡ none
unfolding build_bswap
build_bswap-odd b e odd = rw (==_ne (b.bits_helper e % 16) 0 odd)
