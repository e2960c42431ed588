-- ===== src/Aggregate/Insertion.antt =====
-- Insertion into an aggregate and strings of zero bytes.
use sym_cc_modified.Base.{
  ℕ, zero, suc, ◌+◌, ◌-◌, ◌*◌, ◌/◌, ◌%◌, ◌≤◌, ◌<◌, ◌≡◌, ◌⊎◌, inl, inr, refl, sym, ap, ap₂, ◌∙◌,
  Bool, true, false, Option, none, some, List, [], ◌∷◌, ◌++◌, arith, length, take, drop, replicate,
  reverse, word_size, sub64, add64, ◌==◌, ltb, subst, append-nil, Bool-cases, add-zero, ltb→lt,
  ==_ne,
}
use sym_cc_modified.Builder.{Builder, Meaning}
use sym_cc_modified.Bytes.{to_bytes}
use sym_cc_modified.Bytes.Slices.{slice, bytes, bytes_of_width, bytes-concat_helper, length-bytes}
use sym_cc_modified.Aggregate.{
  build_extract, append_piece, append_rest, part_of, new_piece, build_insert, append_zeros,
  build_zero_bytes,
}
use sym_cc_modified.Aggregate.Extraction.{
  HasBytes, Yields, Yields-eq, in_order, build_extract-Yields, build_bswap-Yields, take_whole,
}

reverse_one : (xs : List ℕ) → length xs ≡ 1 → reverse xs ≡ xs
reverse_one [] h = refl
reverse_one (x ∷ []) h = refl
reverse_one (x ∷ y ∷ xs) h = absurd (omega arith)

take_all_but : (xs : List ℕ) (i n : ℕ) → length xs ≡ i + n → take n (drop i xs) ≡ drop i xs
take_all_but xs zero n h = take_whole xs n (omega arith)
take_all_but [] (suc i) n h = absurd (omega arith)
take_all_but (x ∷ xs) (suc i) n h = take_all_but xs i n (omega arith)

abbrev pub zeros : ℕ → List ℕ
zeros n = replicate n 0

replicate_last : (n : ℕ) → zeros n ++ (0 ∷ []) ≡ zeros (suc n)
replicate_last zero = refl
replicate_last (suc n) = ap (λ xs. 0 ∷ xs) (replicate_last n)

module _ {E : Type 0} {b : Builder E} (m : Meaning b) where
  pub concat-HasBytes :
      (x y : E) (j k : ℕ) {xs ys : List ℕ}
      → HasBytes m x j xs
      → HasBytes m y k ys
      → HasBytes m (b.concat_helper x y) (j + k) (xs ++ ys)
  concat-HasBytes x y j k p q = record {
    width = omega (arith, m.bits-concat x y, p.width, q.width);
    content = bytes-concat_helper m x y j k p.width q.width ∙ ap₂ ◌++◌ p.content q.content;
  }

  -- A part of an aggregate that may be null: it is null exactly when it has no bytes.
  IsPart : Option E → ℕ → List ℕ → Type 0
  IsPart none n xs = (n ≡ 0) × (xs ≡ [])
  IsPart (some e) n xs = HasBytes m e n xs

  append_piece-HasBytes :
      (o : Option E) (e : E) (j k : ℕ) (xs ys : List ℕ)
      → IsPart o j xs
      → HasBytes m e k ys
      → HasBytes m (append_piece b o e) (j + k) (xs ++ ys)
  unfolding append_piece IsPart
  append_piece-HasBytes none e j k xs ys p q = record {
    width = omega (arith, q.width);
    content = q.content ∙ rw p.1;
  }
  append_piece-HasBytes (some r) e j k xs ys p q = concat-HasBytes r e j k p q

  append_rest-HasBytes :
      (e : E) (o : Option E) (j k : ℕ) (xs ys : List ℕ)
      → HasBytes m e j xs
      → IsPart o k ys
      → HasBytes m (append_rest b e o) (j + k) (xs ++ ys)
  unfolding append_rest IsPart
  append_rest-HasBytes e none j k xs ys q p = record {
    width = omega (arith, q.width);
    content = q.content ∙ rw (p.1, append-nil);
  }
  append_rest-HasBytes e (some r) j k xs ys q p = concat-HasBytes e r j k q p

  new_piece-Yields :
      (e : E) (k : ℕ) (little : Bool)
      → 0 < k
      → b.bits_helper e ≡ 8 * k
      → 8 * k < word_size
      → (little ≡ true → (k ≡ 1) ⊎ (k % 2 ≡ 0))
      → Yields m (new_piece b e little) k (in_order little (bytes m e))
  unfolding new_piece
  new_piece-Yields e k false pos whole small even =
      (e, refl, record { width = whole; content = refl })
  new_piece-Yields e k true pos whole small even = elim (Bool-cases (ltb 8 (b.bits_helper e))) [
    | inl wide ↦
        let half : k ≡ 2 * (k / 2) = omega (arith, ltb→lt 8 (b.bits_helper e) wide, even refl) in
        Yields-eq m (rw wide) (sym half) refl
          (build_bswap-Yields m e (k / 2) (omega arith) (omega arith) (omega arith))
    | inr narrow ↦
        let one : k ≡ 1 = ground arith in
        (
          e,
          rw narrow,
          record {
            width = whole;
            content = sym (reverse_one (bytes m e) (omega (arith, length-bytes m e)));
          },
        )
  ]

  part_of-IsPart :
      (e : E) (k offset n : ℕ)
      → b.bits_helper e ≡ 8 * k
      → 8 * k < word_size
      → offset + n ≤ k
      → (o : Option E) × (part_of b e offset n ≡ some o) × IsPart o n (slice offset n (bytes m e))
  unfolding part_of IsPart
  part_of-IsPart e k offset zero whole small fits = (none, refl, (refl, refl))
  part_of-IsPart e k offset (suc n) whole small fits =
      from (build_extract-Yields m e k whole small offset (suc n) false (omega arith) fits)
    where
      from :
          Yields m
            (build_extract b e offset (suc n) false)
            (suc n)
            (slice offset (suc n) (bytes m e))
          → (o : Option E) × (part_of b e offset (suc n) ≡ some o)
            × IsPart o (suc n) (slice offset (suc n) (bytes m e))
      from (r, made, shape) = (some r, rw (==_ne (suc n) 0 (λ h. omega arith), made), shape)

  -- An insertion of a whole number of bytes that lies within an aggregate, of one byte or an even
  -- number of bytes if the order is little endian, replaces the bytes from the offset on by those
  -- of the inserted expression, in the byte order asked for, and keeps the others.
  pub build_insert-Yields :
      (target to_insert : E) (k j offset : ℕ) (little : Bool)
      → b.bits_helper target ≡ 8 * k
      → 8 * k < word_size
      → b.bits_helper to_insert ≡ 8 * j
      → 0 < j
      → offset + j ≤ k
      → (little ≡ true → (j ≡ 1) ⊎ (j % 2 ≡ 0))
      → Yields m (build_insert b target to_insert offset little) k (
          take offset (bytes m target)
          ++ in_order little (bytes m to_insert)
          ++ drop (offset + j) (bytes m target))
  unfolding build_insert
  build_insert-Yields target to_insert k j offset little wide small narrow pos fits even =
      from (part_of-IsPart target k 0 offset wide small (omega arith))
        (new_piece-Yields to_insert j little pos narrow (omega arith) even)
        (part_of-IsPart target k (offset + j) (k - (offset + j)) wide small (omega arith))
    where
      from :
          ((o : Option E) × (part_of b target 0 offset ≡ some o)
            × IsPart o offset (take offset (bytes m target)))
          → Yields m (new_piece b to_insert little) j (in_order little (bytes m to_insert))
          → ((o : Option E) × (part_of b target (offset + j) (k - (offset + j)) ≡ some o)
              × IsPart o
                  (k - (offset + j))
                  (slice (offset + j) (k - (offset + j)) (bytes m target)))
          → Yields m (build_insert b target to_insert offset little) k (
              take offset (bytes m target)
              ++ in_order little (bytes m to_insert)
              ++ drop (offset + j) (bytes m target))
      from (o, before, p) (r, piece, q) (u, after, w) =
          let test : (b.bits_helper to_insert % 8 == 0) ≡ true = ground arith in
          let len : sub64 (sub64 (b.bits_helper target / 8) offset) (b.bits_helper to_insert / 8)
              ≡ k - (offset + j) =
            omega arith in
          let at : add64 offset (b.bits_helper to_insert / 8) ≡ offset + j = omega arith in
          let all_but : slice (offset + j) (k - (offset + j)) (bytes m target)
              ≡ drop (offset + j) (bytes m target) =
            take_all_but (bytes m target) (offset + j) (k - (offset + j))
              (omega (arith, length-bytes m target)) in
          let made : build_insert b target to_insert offset little
              ≡ some (append_rest b (append_piece b o r) u) =
            rw (test, len, at, before, piece, after) in
          let shape =
            append_rest-HasBytes _ u (offset + j) (k - (offset + j)) _ _
              (append_piece-HasBytes o r offset j _ _ p q) w in
          Yields-eq m made (omega arith) (rw all_but) (_, refl, shape)

  append_zeros-HasBytes :
      (zero_byte result : E) (rounds i : ℕ)
      → HasBytes m zero_byte 1 (0 ∷ [])
      → HasBytes m result i (zeros i)
      → HasBytes m (append_zeros b zero_byte rounds result) (i + rounds) (zeros (i + rounds))
  unfolding append_zeros
  append_zeros-HasBytes zero_byte result zero i z h = rw add-zero h
  append_zeros-HasBytes zero_byte result (suc rounds) i z h =
      let one_more : suc i + rounds ≡ i + suc rounds = omega arith in
      rw (← one_more) (
        append_zeros-HasBytes zero_byte (b.concat_helper result zero_byte) rounds (suc i) z record {
          width = omega (arith, (concat-HasBytes result zero_byte i 1 h z).width);
          content = (concat-HasBytes result zero_byte i 1 h z).content ∙ replicate_last i;
        })

  -- A string of zero bytes of a length that is not zero has that many bytes, all of them zero.
  pub build_zero_bytes-HasBytes :
      (length : ℕ) → 0 < length → HasBytes m (build_zero_bytes b length) length (zeros length)
  unfolding build_zero_bytes to_bytes
  build_zero_bytes-HasBytes length pos =
      let all : 1 + (length - 1) ≡ length = omega arith in
      let zero_byte : HasBytes m (b.build_integer 0 8) 1 (0 ∷ []) = record {
        width = m.bits-integer 0 8;
        content = bytes_of_width m _ 1 (m.bits-integer 0 8) ∙ ap (to_bytes 1) (m.value-integer 0 8);
      } in
      subst
        (λ n.
          HasBytes m (append_zeros b (b.build_integer 0 8) (length - 1) (b.build_integer 0 8)) n
            (zeros n))
        all
        (append_zeros-HasBytes (b.build_integer 0 8) (b.build_integer 0 8) (length - 1) 1 zero_byte
          zero_byte)
