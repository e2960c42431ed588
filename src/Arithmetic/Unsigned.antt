-- ===== src/Arithmetic/Unsigned.antt =====
-- Unsigned saturation, the absolute value, and the widths for which no constant is defined.
use native.Mathlib.Nat.{
  mod-eq_of_lt, div-eq_of_lt, mul-add-div_right, zero-mod, add-mul-mod_self_right,
}
use sym_cc_modified.Base.{
  ℕ, ◌+◌, ◌-◌, ◌*◌, ◌/◌, ◌%◌, ◌^◌, ◌≡◌, ◌<◌, ◌≤◌, sym, ap, ◌∙◌, some, arith, ltb, leb, ltb→lt,
  leb→le, ◌==◌, if◌then◌else◌, u8, pow_double, pow_pos, subst, Bool-cases, inl, inr,
}
use Prim.Native.Nat.{min}
use sym_cc_modified.Builder.{Builder, Meaning, bit}
use sym_cc_modified.Arithmetic.{bit_to_bool, build_uadd_sat, build_usub_sat}
use sym_cc_modified.Arithmetic.Widths.{build_max_unsigned_int_lem}

top_bit : (s n : ℕ) → s < 2 * 2 ^ n → s / 2 ^ n % 2 ≡ (if ltb s (2 ^ n) then 0 else 1)
top_bit s n h = elim (Bool-cases (ltb s (2 ^ n))) [
  | inl low ↦ rw low (omega (arith, div-eq_of_lt {n = s} {m = 2 ^ n} (ground arith)))
  | inr high ↦ rw high (ap (λ (t : ℕ). t % 2) (one s (2 ^ n) (pow_pos n) (ground arith) h))
]
  where
    one : (s p : ℕ) → 0 < p → p ≤ s → s < 2 * p → s / p ≡ 1
    one s p nonzero low high =
        let split : 1 * p + (s - p) ≡ s = omega arith in
        ap (λ (t : ℕ). t / p) (sym split)
        ∙ mul-add-div_right nonzero 1 (s - p)
        ∙ omega (arith, div-eq_of_lt {n = s - p} {m = p} (omega arith))

module _ {E : Type 0} {b : Builder E} (m : Meaning b) where
  -- The truth of one bit.
  value-bit_to_bool : (e : E) → b.bits_helper e ≡ 1 → m.value (bit_to_bool b e) ≡ m.value e
  unfolding bit_to_bool
  value-bit_to_bool e w =
      let fits : m.value e < 2 = subst (λ t. m.value e < 2 ^ t) w (m.value-lt e) in
      let byte : u8 (b.bits_helper e) ≡ 1 = omega arith in
      let zero_value : m.value (b.build_integer 0 (u8 (b.bits_helper e))) ≡ 0 =
        m.value-integer 0 _ ∙ zero-mod _ in
      m.value-not_equal e (b.build_integer 0 (u8 (b.bits_helper e)))
        (w ∙ sym (m.bits-integer 0 _ ∙ byte))
      ∙ rw zero_value (ground arith)

module _ {E : Type 0} {b : Builder E} (m : Meaning b) (x y : E) (n : ℕ) (pos_n : 0 < n)
    (wx : b.bits_helper x ≡ n) (wy : b.bits_helper y ≡ n) where
  below : (e : E) → b.bits_helper e ≡ n → m.value e < 2 ^ n
  below e w = subst (λ t. m.value e < 2 ^ t) w (m.value-lt e)

  pub carry : E
  carry = b.extract_helper (b.build_add (b.build_zext x 1) (b.build_zext y 1)) n n

  wide_width : b.bits_helper (b.build_add (b.build_zext x 1) (b.build_zext y 1)) ≡ n + 1
  wide_width =
      m.bits-add (b.build_zext x 1) (b.build_zext y 1)
        (omega (arith, m.bits-zext x 1, m.bits-zext y 1))
      ∙ omega (arith, m.bits-zext x 1)

  -- The extra bit of the wide sum.
  pub value_carry :
      (b.bits_helper carry ≡ 1)
      × (m.value carry ≡ (if ltb (m.value x + m.value y) (2 ^ n) then 0 else 1))
  unfolding carry
  value_carry =
      let full : 2 ^ b.bits_helper (b.build_zext x 1) ≡ 2 * 2 ^ n =
        ap (λ (t : ℕ). 2 ^ t) (m.bits-zext x 1 ∙ ap (λ (t : ℕ). t + 1) wx) ∙ pow_double n in
      let small : (m.value x + m.value y) % (2 * 2 ^ n) ≡ m.value x + m.value y =
        mod-eq_of_lt (omega (arith, below x wx, below y wy)) in
      let sum : m.value (b.build_add (b.build_zext x 1) (b.build_zext y 1))
          ≡ m.value x + m.value y =
        m.value-add (b.build_zext x 1) (b.build_zext y 1)
          (omega (arith, m.bits-zext x 1, m.bits-zext y 1))
        ∙ rw (m.value-zext x 1, m.value-zext y 1, full) small in
      let one : n - n + 1 ≡ 1 = omega arith in
      (
        m.bits-extract _ n n (omega arith) (omega (arith, wide_width)) ∙ one,
        m.value-extract _ n n (omega arith) (omega (arith, wide_width))
            ∙ rw (one, sum)
                (top_bit (m.value x + m.value y) n (omega (arith, below x wx, below y wy))),
      )

  -- For operands of one width from 1 to 63 bits, unsigned saturating addition succeeds with an
  -- expression of that width whose value is the sum, or the greatest number of the width if the
  -- sum is greater.
  pub build_uadd_sat_lem :
      n < 64
      → (r : E) × (build_uadd_sat b x y ≡ some r)
        × (b.bits_helper r ≡ n)
        × (m.value r ≡ min (m.value x + m.value y) (2 ^ n - 1))
  unfolding build_uadd_sat carry
  build_uadd_sat_lem small =
      let (max, made, bound) = build_max_unsigned_int_lem m n pos_n small in
      let same : b.bits_helper x ≡ b.bits_helper y = wx ∙ sym wy in
      let widths : b.bits_helper max ≡ b.bits_helper (b.build_add x y) =
        bound.width ∙ sym (m.bits-add x y same ∙ wx) in
      let sum : m.value (b.build_add x y) ≡ (m.value x + m.value y) % 2 ^ n =
        m.value-add x y same ∙ ap (λ (t : ℕ). (m.value x + m.value y) % 2 ^ t) wx in
      let choice = m.value-ite (bit_to_bool b carry) max (b.build_add x y) widths in
      (
        b.build_ite (bit_to_bool b carry) max (b.build_add x y),
        rw (wx, made),
        m.bits-ite (bit_to_bool b carry) max (b.build_add x y) widths ∙ bound.width,
        choice
            ∙ rw (value-bit_to_bool m carry value_carry.0, value_carry.1, bound.content, sum)
                (saturated (m.value x + m.value y)),
      )
    where
      saturated :
          (s : ℕ)
          → (if (if ltb s (2 ^ n) then 0 else 1) == 0 then s % 2 ^ n else 2 ^ n - 1)
            ≡ min s (2 ^ n - 1)
      saturated s = elim (Bool-cases (ltb s (2 ^ n))) [
        | inl low ↦
            let fits : s < 2 ^ n = ltb→lt s (2 ^ n) low in rw low (mod-eq_of_lt fits ∙ ground arith)
        | inr high ↦ rw high (ground (arith, pow_pos n))
      ]

  -- For operands of one width from 1 to 255 bits, unsigned saturating subtraction is an
  -- expression of that width whose value is the difference, or zero if that is negative.
  pub build_usub_sat_lem :
      n < 256
      → (b.bits_helper (build_usub_sat b x y) ≡ n)
        × (m.value (build_usub_sat b x y) ≡ m.value x - m.value y)
  unfolding build_usub_sat
  build_usub_sat_lem small =
      let byte : u8 (b.bits_helper x) ≡ n = omega arith in
      let same : b.bits_helper x ≡ b.bits_helper y = wx ∙ sym wy in
      let nothing : E = b.build_integer 0 (u8 (b.bits_helper x)) in
      let widths : b.bits_helper (b.build_sub x y) ≡ b.bits_helper nothing =
        m.bits-sub x y same ∙ wx ∙ sym (m.bits-integer 0 _ ∙ byte) in
      let test : E = b.build_unsigned_greater_equal x y in
      let difference : m.value (b.build_sub x y) ≡ (m.value x + 2 ^ n - m.value y) % 2 ^ n =
        m.value-sub x y same ∙ ap (λ (t : ℕ). (m.value x + 2 ^ t - m.value y) % 2 ^ t) wx in
      let none_left : m.value nothing ≡ 0 = m.value-integer 0 _ ∙ zero-mod _ in
      (
        m.bits-ite test (b.build_sub x y) nothing widths ∙ m.bits-sub x y same ∙ wx,
        m.value-ite test (b.build_sub x y) nothing widths
            ∙ rw (m.value-unsigned_greater_equal x y same, difference, none_left)
                (truncated (m.value x) (m.value y) (2 ^ n) (below x wx)),
      )
    where
      truncated : (v w p : ℕ) → v < p → (if bit (leb w v) == 0 then 0 else (v + p - w) % p) ≡ v - w
      truncated v w p h = elim (Bool-cases (leb w v)) [
        | inl enough ↦
            let le : w ≤ v = leb→le w v enough in
            let split : v + p - w ≡ v - w + 1 * p = omega arith in
            rw (enough, split) (add-mul-mod_self_right (v - w) 1 p ∙ mod-eq_of_lt (omega arith))
        | inr less ↦ rw less (ground arith)
      ]
