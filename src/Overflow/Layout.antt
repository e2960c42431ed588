-- ===== src/Overflow/Layout.antt =====
-- The bytes of the structure that describes a result and its overflow.
use sym_cc_modified.Base.{
  ℕ, ◌+◌, ◌-◌, ◌*◌, ◌/◌, ◌%◌, ◌≤◌, ◌<◌, ◌≡◌, ◌≢◌, inl, inr, refl, ap, ◌∙◌, Bool, true, false, none,
  List, [], ◌∷◌, ◌++◌, arith, reverse, word_size, sub64, ◌==◌, if◌then◌else◌, subst, Bool-cases,
}
use sym_cc_modified.Builder.{Builder, Meaning}
use sym_cc_modified.Bytes.{to_bytes}
use sym_cc_modified.Bytes.Slices.{bytes, bytes_of_width}
use sym_cc_modified.Aggregate.{build_zero_bytes}
use sym_cc_modified.Aggregate.Extraction.{
  HasBytes, Yields, in_order, build_bswap-Yields, build_bswap-odd,
}
use sym_cc_modified.Aggregate.Insertion.{zeros, concat-HasBytes, build_zero_bytes-HasBytes}
use sym_cc_modified.Overflow.{build_overflow_tail, build_overflow_result}

-- The second half of the structure: the flag next to the result in the byte order, and zeros.
abbrev pub flag_bytes : Bool → ℕ → ℕ → List ℕ
flag_bytes true k flag = flag ∷ zeros (k - 1)
flag_bytes false k flag = zeros (k - 1) ++ (flag ∷ [])

module _ {E : Type 0} {b : Builder E} (m : Meaning b) (result overflow : E) (k : ℕ)
    (whole : b.bits_helper result ≡ 8 * k) (small : 8 * k < word_size)
    (truth : m.value overflow ≤ 1) where
  flag_byte : HasBytes m (b.build_zext (b.build_bool_to_bit overflow) 7) 1 (m.value overflow ∷ [])
  unfolding to_bytes
  flag_byte =
      let e : E = b.build_zext (b.build_bool_to_bit overflow) 7 in
      let w : b.bits_helper e ≡ 8 * 1 =
        omega (arith, m.bits-zext (b.build_bool_to_bit overflow) 7, m.bits-bool_to_bit overflow) in
      let v : m.value e ≡ m.value overflow =
        m.value-zext (b.build_bool_to_bit overflow) 7 ∙ m.value-bool_to_bit overflow truth in
      let low : m.value overflow / 1 % 256 ≡ m.value overflow = omega arith in
      record {
        width = w;
        content = bytes_of_width m e 1 w ∙ ap (to_bytes 1) v ∙ ap (λ t. t ∷ []) low;
      }

  build_overflow_tail-HasBytes :
      (byte : E) (little : Bool)
      → 2 ≤ k
      → HasBytes m byte 1 (m.value overflow ∷ [])
      → HasBytes m
          (build_overflow_tail b byte (8 * k) little)
          k
          (flag_bytes little k (m.value overflow))
  unfolding build_overflow_tail
  build_overflow_tail-HasBytes byte true wide h =
      let less : sub64 (8 * k / 8) 1 ≡ k - 1 = omega arith in
      let one_more : 1 + (k - 1) ≡ k = omega arith in
      rw less (
        subst
          (λ n.
            HasBytes m (b.concat_helper byte (build_zero_bytes b (k - 1))) n
              (m.value overflow ∷ zeros (k - 1)))
          one_more
          (concat-HasBytes m byte (build_zero_bytes b (k - 1)) 1 (k - 1) h
            (build_zero_bytes-HasBytes m (k - 1) (omega arith))))
  build_overflow_tail-HasBytes byte false wide h =
      let less : sub64 (8 * k / 8) 1 ≡ k - 1 = omega arith in
      let more_one : k - 1 + 1 ≡ k = omega arith in
      rw less (
        subst
          (λ n.
            HasBytes m (b.concat_helper (build_zero_bytes b (k - 1)) byte) n
              (zeros (k - 1) ++ (m.value overflow ∷ [])))
          more_one
          (concat-HasBytes m (build_zero_bytes b (k - 1)) byte (k - 1) 1
            (build_zero_bytes-HasBytes m (k - 1) (omega arith)) h))

  tail-HasBytes :
      (little : Bool)
      → 0 < k
      → HasBytes m
          (if b.bits_helper result == 8
            then b.build_zext (b.build_bool_to_bit overflow) 7
            else build_overflow_tail b
                (b.build_zext (b.build_bool_to_bit overflow) 7)
                (b.bits_helper result)
                little)
          k
          (flag_bytes little k (m.value overflow))
  tail-HasBytes little some_bytes = elim (Bool-cases (k == 1)) [
    | inl one ↦
        let e : k ≡ 1 = ground arith in
        let test : (b.bits_helper result == 8) ≡ true = ground arith in rw (test, e) (single little)
    | inr more ↦
        let test : (b.bits_helper result == 8) ≡ false = ground arith in
        rw (test, whole) (build_overflow_tail-HasBytes _ little (ground arith) flag_byte)
  ]
    where
      single :
          (little : Bool)
          → HasBytes m
              (b.build_zext (b.build_bool_to_bit overflow) 7)
              1
              (flag_bytes little 1 (m.value overflow))
      single true = flag_byte
      single false = flag_byte

  -- For a result of `k` bytes, `k` not zero, and even if the order is little endian, and an
  -- overflow that is 0 or 1, the overflow structure succeeds with the bytes of the result in the
  -- byte order followed by `k` bytes of the flag and zeros, the flag first for little endian and
  -- last for big endian.
  pub build_overflow_result-Yields :
      (little : Bool)
      → 0 < k
      → (little ≡ true → k % 2 ≡ 0)
      → Yields m
          (build_overflow_result b result overflow little)
          (k + k)
          (in_order little (bytes m result) ++ flag_bytes little k (m.value overflow))
  unfolding build_overflow_result
  build_overflow_result-Yields false some_bytes even =
      let test : (b.bits_helper result % 8 == 0) ≡ true = ground arith in
      let r : HasBytes m result k (bytes m result) = record { width = whole; content = refl } in
      (_, rw test, concat-HasBytes m result _ k k r (tail-HasBytes false some_bytes))
  build_overflow_result-Yields true some_bytes even =
      let test : (b.bits_helper result % 8 == 0) ≡ true = ground arith in
      let half : 2 * (k / 2) ≡ k = omega (arith, even refl) in
      let (r, made, shape) =
        build_bswap-Yields m result (k / 2) (omega (arith, even refl)) (omega (arith, even refl))
          (omega arith) in
      (
        _,
        rw (test, made),
        concat-HasBytes m r _ k k
            (subst (λ n. HasBytes m r n (reverse (bytes m result))) half shape)
            (tail-HasBytes true some_bytes),
      )

-- For little endian, the overflow structure of a result whose width is not a multiple of 16 bits,
-- a single byte included, fails an assertion.
pub build_overflow_result-odd :
    {E : Type 0} (b : Builder E) (result overflow : E)
    → b.bits_helper result % 16 ≢ 0
    → build_overflow_result b result overflow true ≡ none
unfolding build_overflow_result
build_overflow_result-odd b result overflow odd = rw (build_bswap-odd b result odd) (ground arith)
