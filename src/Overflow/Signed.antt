-- ===== src/Overflow/Signed.antt =====
-- The flag of signed addition and subtraction.
use sym_cc_modified.Base.{
  ℕ, ◌+◌, ◌-◌, ◌*◌, ◌%◌, ◌^◌, ◌≤◌, ◌<◌, ◌≡◌, refl, sym, ap, ◌∙◌, Bool, true, ◌&&◌, not, ◌++◌, arith,
  word_size, ◌==◌, ltb, subst, Bool-cases, inl, inr,
}
use sym_cc_modified.Base.Int.{ℤ, pos, negsuc, to_signed, leb_ℤ, ◌+ℤ◌, ◌-ℤ◌}
use sym_cc_modified.Base.Signed.{signed, widen, mod_once}
use sym_cc_modified.Builder.{Builder, Meaning, bit, sign_extend}
use sym_cc_modified.Bytes.Slices.{bytes}
use sym_cc_modified.Aggregate.Extraction.{Yields, in_order}
use sym_cc_modified.Arithmetic.Widths.{half, pow_half, pow_wide, to_signed_lem, sign_extend_one}
use sym_cc_modified.Arithmetic.Saturation.{smallest, greatest}
use sym_cc_modified.Overflow.{
  add_overflow, sub_overflow, build_overflow_result, build_add_overflow, build_sub_overflow,
}
use sym_cc_modified.Overflow.Layout.{flag_bytes, build_overflow_result-Yields}

-- Whether an integer has no pattern of `n` bits.
abbrev pub is_out_of_range : ℕ → ℤ → Bool
is_out_of_range n s = not (leb_ℤ (smallest n) s && leb_ℤ s (greatest n))

widen-lt : (h v : ℕ) → v < 2 * h → widen h v < 4 * h
widen-lt h v p = ground arith

add_differs :
    (h v w : ℕ)
    → v < 2 * h
    → w < 2 * h
    → 1 - bit ((widen h v + widen h w) % (4 * h) == widen h ((v + w) % (2 * h)))
      ≡ bit (
          not (
            leb_ℤ (negsuc (h - 1)) (signed h v +ℤ signed h w)
            && leb_ℤ (signed h v +ℤ signed h w) (pos (h - 1))))
add_differs h v w p q =
    rw
      (
        mod_once (v + w) (2 * h) (omega arith),
        mod_once (widen h v + widen h w) (4 * h) (omega (arith, widen-lt h v p, widen-lt h w q)),
      )
      (elim (Bool-cases (ltb v h)) [
        | inl low ↦ rw low (elim (Bool-cases (ltb w h)) [
          | inl low' ↦ rw low' (ground arith)
          | inr high' ↦ rw high' (ground arith)
        ])
        | inr high ↦ rw high (elim (Bool-cases (ltb w h)) [
          | inl low' ↦ rw low' (ground arith)
          | inr high' ↦ rw high' (ground arith)
        ])
      ])

sub_differs :
    (h v w : ℕ)
    → v < 2 * h
    → w < 2 * h
    → 1 - bit ((widen h v + 4 * h - widen h w) % (4 * h) == widen h ((v + 2 * h - w) % (2 * h)))
      ≡ bit (
          not (
            leb_ℤ (negsuc (h - 1)) (signed h v -ℤ signed h w)
            && leb_ℤ (signed h v -ℤ signed h w) (pos (h - 1))))
sub_differs h v w p q =
    rw
      (
        mod_once (v + 2 * h - w) (2 * h) (omega arith),
        mod_once (widen h v + 4 * h - widen h w) (4 * h)
            (omega (arith, widen-lt h v p, widen-lt h w q)),
      )
      (elim (Bool-cases (ltb v h)) [
        | inl low ↦ rw low (elim (Bool-cases (ltb w h)) [
          | inl low' ↦ rw low' (ground arith)
          | inr high' ↦ rw high' (ground arith)
        ])
        | inr high ↦ rw high (elim (Bool-cases (ltb w h)) [
          | inl low' ↦ rw low' (ground arith)
          | inr high' ↦ rw high' (ground arith)
        ])
      ])

module _ {E : Type 0} {b : Builder E} (m : Meaning b) (x y : E) (n : ℕ) (some_bits : 0 < n)
    (wx : b.bits_helper x ≡ n) (wy : b.bits_helper y ≡ n) where
  fits : (e : E) → b.bits_helper e ≡ n → m.value e < 2 * half n
  fits e w =
      subst (λ t. m.value e < t) (ap (λ (t : ℕ). 2 ^ t) w ∙ pow_half n some_bits) (m.value-lt e)

  value-sext_one :
      (e : E) → b.bits_helper e ≡ n → m.value (b.build_sext e 1) ≡ widen (half n) (m.value e)
  value-sext_one e w =
      subst (λ t. 0 < t → m.value (b.build_sext e 1) ≡ sign_extend t 1 (m.value e)) w
        (m.value-sext e 1) some_bits
      ∙ sign_extend_one n (m.value e) some_bits

  sext_width : b.bits_helper (b.build_sext x 1) ≡ n + 1
  sext_width = omega (arith, m.bits-sext x 1)

  same : b.bits_helper x ≡ b.bits_helper y
  same = wx ∙ sym wy

  sext_widths : b.bits_helper (b.build_sext x 1) ≡ b.bits_helper (b.build_sext y 1)
  sext_widths = omega (arith, m.bits-sext x 1, m.bits-sext y 1)

  full : 2 ^ b.bits_helper x ≡ 2 * half n
  full = ap (λ (t : ℕ). 2 ^ t) wx ∙ pow_half n some_bits

  wide : 2 ^ b.bits_helper (b.build_sext x 1) ≡ 4 * half n
  wide = ap (λ (t : ℕ). 2 ^ t) sext_width ∙ pow_wide n some_bits

  value-add_overflow :
      m.value (add_overflow b x y true)
      ≡ bit (is_out_of_range n (to_signed n (m.value x) +ℤ to_signed n (m.value y)))
  unfolding add_overflow
  value-add_overflow =
      let sum : E = b.build_add x y in
      let width : b.bits_helper sum ≡ n = m.bits-add x y same ∙ wx in
      let value : m.value sum ≡ (m.value x + m.value y) % (2 * half n) =
        m.value-add x y same ∙ rw full refl in
      let value' : m.value (b.build_add (b.build_sext x 1) (b.build_sext y 1))
          ≡ (widen (half n) (m.value x) + widen (half n) (m.value y)) % (4 * half n) =
        m.value-add (b.build_sext x 1) (b.build_sext y 1) sext_widths
        ∙ rw (value-sext_one x wx, value-sext_one y wy, wide) refl in
      let widths : b.bits_helper (b.build_add (b.build_sext x 1) (b.build_sext y 1))
          ≡ b.bits_helper (b.build_sext sum 1) =
        omega (
          arith,
          m.bits-add (b.build_sext x 1) (b.build_sext y 1) sext_widths,
          sext_width,
          m.bits-sext sum 1,
        ) in
      m.value-not_equal (b.build_add (b.build_sext x 1) (b.build_sext y 1)) (b.build_sext sum 1)
        widths
      ∙ rw
          (
            value',
            value-sext_one sum width,
            value,
            to_signed_lem n (m.value x) some_bits,
            to_signed_lem n (m.value y) some_bits,
          )
          (add_differs (half n) (m.value x) (m.value y) (fits x wx) (fits y wy))

  value-sub_overflow :
      m.value (sub_overflow b x y true)
      ≡ bit (is_out_of_range n (to_signed n (m.value x) -ℤ to_signed n (m.value y)))
  unfolding sub_overflow
  value-sub_overflow =
      let difference : E = b.build_sub x y in
      let width : b.bits_helper difference ≡ n = m.bits-sub x y same ∙ wx in
      let value : m.value difference ≡ (m.value x + 2 * half n - m.value y) % (2 * half n) =
        m.value-sub x y same ∙ rw full refl in
      let value' : m.value (b.build_sub (b.build_sext x 1) (b.build_sext y 1))
          ≡ (widen (half n) (m.value x) + 4 * half n - widen (half n) (m.value y)) % (4 * half n) =
        m.value-sub (b.build_sext x 1) (b.build_sext y 1) sext_widths
        ∙ rw (value-sext_one x wx, value-sext_one y wy, wide) refl in
      let widths : b.bits_helper (b.build_sub (b.build_sext x 1) (b.build_sext y 1))
          ≡ b.bits_helper (b.build_sext difference 1) =
        omega (
          arith,
          m.bits-sub (b.build_sext x 1) (b.build_sext y 1) sext_widths,
          sext_width,
          m.bits-sext difference 1,
        ) in
      m.value-not_equal (b.build_sub (b.build_sext x 1) (b.build_sext y 1))
        (b.build_sext difference 1) widths
      ∙ rw
          (
            value',
            value-sext_one difference width,
            value,
            to_signed_lem n (m.value x) some_bits,
            to_signed_lem n (m.value y) some_bits,
          )
          (sub_differs (half n) (m.value x) (m.value y) (fits x wx) (fits y wy))

bit-le : (c : Bool) → bit c ≤ 1
bit-le c = ground arith

module _ {E : Type 0} {b : Builder E} (m : Meaning b) (x y : E) (k : ℕ) (little : Bool)
    (some_bytes : 0 < k) (even : little ≡ true → k % 2 ≡ 0) (small : 8 * k < word_size)
    (wx : b.bits_helper x ≡ 8 * k) (wy : b.bits_helper y ≡ 8 * k) where
  some_bits : 0 < 8 * k
  some_bits = omega arith

  -- For two operands of one width of `k` bytes, `k` not zero, and even if the order is little
  -- endian, signed addition with overflow succeeds with the bytes of the sum in the byte order
  -- followed by `k` bytes of a flag and zeros, where the flag tells whether the sum of the signed
  -- values has no pattern of the width.
  pub build_add_overflow-Yields : Yields m (build_add_overflow b x y true little) (k + k) (
      in_order little (bytes m (b.build_add x y))
      ++ flag_bytes little k (
          bit (
            is_out_of_range
              (8 * k)
              (to_signed (8 * k) (m.value x) +ℤ to_signed (8 * k) (m.value y)))))
  unfolding build_add_overflow
  build_add_overflow-Yields =
      let flag = value-add_overflow m x y (8 * k) some_bits wx wy in
      subst
        (λ v.
          Yields m (build_overflow_result b (b.build_add x y) (add_overflow b x y true) little)
            (k + k) (in_order little (bytes m (b.build_add x y)) ++ flag_bytes little k v))
        flag
        (build_overflow_result-Yields m (b.build_add x y) (add_overflow b x y true) k
          (m.bits-add x y (wx ∙ sym wy) ∙ wx) small (subst (λ (v : ℕ). v ≤ 1) (sym flag) (bit-le _))
          little some_bytes even)

  -- For two operands of one width of `k` bytes, `k` not zero, and even if the order is little
  -- endian, signed subtraction with overflow succeeds with the bytes of the difference in the
  -- byte order followed by `k` bytes of a flag and zeros, where the flag tells whether the
  -- difference of the signed values has no pattern of the width.
  pub build_sub_overflow-Yields : Yields m (build_sub_overflow b x y true little) (k + k) (
      in_order little (bytes m (b.build_sub x y))
      ++ flag_bytes little k (
          bit (
            is_out_of_range
              (8 * k)
              (to_signed (8 * k) (m.value x) -ℤ to_signed (8 * k) (m.value y)))))
  unfolding build_sub_overflow
  build_sub_overflow-Yields =
      let flag = value-sub_overflow m x y (8 * k) some_bits wx wy in
      subst
        (λ v.
          Yields m (build_overflow_result b (b.build_sub x y) (sub_overflow b x y true) little)
            (k + k) (in_order little (bytes m (b.build_sub x y)) ++ flag_bytes little k v))
        flag
        (build_overflow_result-Yields m (b.build_sub x y) (sub_overflow b x y true) k
          (m.bits-sub x y (wx ∙ sym wy) ∙ wx) small (subst (λ (v : ℕ). v ≤ 1) (sym flag) (bit-le _))
          little some_bytes even)
