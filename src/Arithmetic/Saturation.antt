-- ===== src/Arithmetic/Saturation.antt =====
-- Saturating arithmetic computes in ℤ or ℕ and takes the nearest number that has a pattern.
use sym_cc_modified.Base.{
  ℕ, ◌+◌, ◌-◌, ◌*◌, ◌^◌, ◌≡◌, ◌<◌, refl, sym, ap, ap₂, ◌∙◌, false, Option, some, arith, ◌==◌,
  if◌then◌else◌, pow_pos, subst, Bool-cases, inl, inr,
}
use sym_cc_modified.Base.Int.{ℤ, pos, negsuc, to_signed, leb_ℤ, clamp, ◌+ℤ◌, ◌-ℤ◌}
use sym_cc_modified.Base.Signed.{
  signed, widen, signed-widen_add, signed-widen_sub, signed-add, signed-sub,
}
use sym_cc_modified.Builder.{Builder, Meaning, bit}
use sym_cc_modified.Arithmetic.{build_saturated, build_sadd_sat, build_ssub_sat}
use sym_cc_modified.Arithmetic.Widths.{
  half, pow_half, pow_wide, to_signed_lem, to_signed_wide, Has, build_min_signed_int_lem,
  build_max_signed_int_lem, value-sext_one,
}

-- The smallest and the greatest number of a width.
abbrev pub smallest : ℕ → ℤ
smallest n = negsuc (2 ^ (n - 1) - 1)

abbrev pub greatest : ℕ → ℤ
greatest n = pos (2 ^ (n - 1) - 1)

module _ {E : Type 0} {b : Builder E} (m : Meaning b) (n : ℕ) (pos_n : 0 < n) (small : n < 64) where
  wide_bound :
      (e : E) (v : ℕ) (s : ℤ)
      → Has m n e v
      → signed (2 * half n) (widen (half n) v) ≡ s
      → to_signed (n + 1) (m.value (b.build_sext e 1)) ≡ s
  wide_bound e v s h k =
      to_signed_wide n (m.value (b.build_sext e 1)) pos_n
      ∙ ap (signed (2 * half n)) (value-sext_one m n pos_n small e v h)
      ∙ k

  -- A test of the widened operand against a bound.
  module _ (wide bound : E) (s t : ℤ) (w : b.bits_helper wide ≡ n + 1)
      (wide_s : to_signed (n + 1) (m.value wide) ≡ s) (h : b.bits_helper bound ≡ n)
      (bound_t : to_signed (n + 1) (m.value (b.build_sext bound 1)) ≡ t) where
    same_width : b.bits_helper wide ≡ b.bits_helper (b.build_sext bound 1)
    same_width = omega (arith, m.bits-sext bound 1)

    value-at_most :
        m.value (b.build_signed_less_equal wide (b.build_sext bound 1)) ≡ bit (leb_ℤ s t)
    value-at_most =
        subst
          (λ k.
            m.value (b.build_signed_less_equal wide (b.build_sext bound 1))
            ≡ bit
                (leb_ℤ (to_signed k (m.value wide)) (to_signed k (m.value (b.build_sext bound 1)))))
          w (m.value-signed_less_equal wide (b.build_sext bound 1) same_width)
        ∙ ap₂ (λ x y. bit (leb_ℤ x y)) wide_s bound_t

    value-at_least :
        m.value (b.build_signed_greater_equal wide (b.build_sext bound 1)) ≡ bit (leb_ℤ t s)
    value-at_least =
        subst
          (λ k.
            m.value (b.build_signed_greater_equal wide (b.build_sext bound 1))
            ≡ bit
                (leb_ℤ (to_signed k (m.value (b.build_sext bound 1))) (to_signed k (m.value wide))))
          w (m.value-signed_greater_equal wide (b.build_sext bound 1) same_width)
        ∙ ap₂ (λ x y. bit (leb_ℤ y x)) wide_s bound_t

  -- The choice between two bounds, when the wide expression stands for the integer `s`.
  build_saturated-value :
      (min max wide result : E) (s : ℤ)
      → Has m n min (half n)
      → Has m n max (half n - 1)
      → b.bits_helper wide ≡ n + 1
      → to_signed (n + 1) (m.value wide) ≡ s
      → b.bits_helper result ≡ n
      → (leb_ℤ s (smallest n) ≡ false
          → leb_ℤ (greatest n) s ≡ false
          → to_signed n (m.value result) ≡ s)
      → (b.bits_helper (build_saturated b min max wide result) ≡ n)
        × (to_signed n (m.value (build_saturated b min max wide result))
            ≡ clamp (smallest n) (greatest n) s)
  unfolding build_saturated
  build_saturated-value min max wide result s lo hi w wide_s r inside =
      let h_pos : 0 < half n = pow_pos (n - 1) in
      let below =
        value-at_most wide min s (smallest n) w wide_s lo.width
          (wide_bound min (half n) (smallest n) lo (ground arith)) in
      let above =
        value-at_least wide max s (greatest n) w wide_s hi.width
          (wide_bound max (half n - 1) (greatest n) hi (ground arith)) in
      let inner : E =
        b.build_ite (b.build_signed_greater_equal wide (b.build_sext max 1)) max result in
      let inner_width : b.bits_helper inner ≡ n =
        m.bits-ite _ max result (hi.width ∙ sym r) ∙ hi.width in
      let min_width : b.bits_helper min ≡ b.bits_helper inner = lo.width ∙ sym inner_width in
      let v : m.value (build_saturated b min max wide result) ≡ (
          if bit (leb_ℤ s (smallest n)) == 0
          then (if bit (leb_ℤ (greatest n) s) == 0 then m.value result else half n - 1)
          else half n) =
        m.value-ite (b.build_signed_less_equal wide (b.build_sext min 1)) min inner min_width
        ∙ rw (
          below,
          m.value-ite (b.build_signed_greater_equal wide (b.build_sext max 1)) max result
              (hi.width ∙ sym r),
          above,
          lo.content,
          hi.content,
        ) in
      (
        m.bits-ite _ min inner min_width ∙ lo.width,
        to_signed_lem n _ pos_n
            ∙ ap (signed (half n)) v
            ∙ choose s (m.value result) h_pos
                (λ p q. sym (to_signed_lem n (m.value result) pos_n) ∙ inside p q),
      )
    where
      choose :
          (s : ℤ) (r : ℕ)
          → 0 < half n
          → (leb_ℤ s (smallest n) ≡ false → leb_ℤ (greatest n) s ≡ false → signed (half n) r ≡ s)
          → signed (half n) (
              if bit (leb_ℤ s (smallest n)) == 0
              then (if bit (leb_ℤ (greatest n) s) == 0 then r else half n - 1)
              else half n)
            ≡ clamp (smallest n) (greatest n) s
      choose s r h k = elim (Bool-cases (leb_ℤ s (smallest n))) [
        | inl low ↦ rw low (ground arith)
        | inr not_low ↦ rw not_low (elim (Bool-cases (leb_ℤ (greatest n) s)) [
          | inl high ↦ rw high (ground arith)
          | inr not_high ↦ rw not_high (k not_low not_high)
        ])
      ]

  -- The run ends in an expression of `n` bits that stands for the integer `s`.
  abbrev pub Gives : Option E → ℤ → Type 0
  Gives o s = (r : E) × (o ≡ some r) × (b.bits_helper r ≡ n) × (to_signed n (m.value r) ≡ s)

  module _ (x y : E) (wx : b.bits_helper x ≡ n) (wy : b.bits_helper y ≡ n) where
    fits : (e : E) → b.bits_helper e ≡ n → m.value e < 2 * half n
    fits e w =
        subst (λ t. m.value e < t) (ap (λ (t : ℕ). 2 ^ t) w ∙ pow_half n pos_n) (m.value-lt e)

    sext_width : b.bits_helper (b.build_sext x 1) ≡ n + 1
    sext_width = omega (arith, m.bits-sext x 1)

    sext_widths : b.bits_helper (b.build_sext x 1) ≡ b.bits_helper (b.build_sext y 1)
    sext_widths = omega (arith, m.bits-sext x 1, m.bits-sext y 1)

    full_width : 2 ^ b.bits_helper x ≡ 2 * half n
    full_width = ap (λ (t : ℕ). 2 ^ t) wx ∙ pow_half n pos_n

    wide_width : 2 ^ b.bits_helper (b.build_sext x 1) ≡ 4 * half n
    wide_width = ap (λ (t : ℕ). 2 ^ t) sext_width ∙ pow_wide n pos_n

    integer : E → ℤ
    integer e = signed (half n) (m.value e)

    to_integer : (e : E) → to_signed n (m.value e) ≡ integer e
    unfolding integer
    to_integer e = to_signed_lem n (m.value e) pos_n

    value_widened :
        (e : E) → b.bits_helper e ≡ n → m.value (b.build_sext e 1) ≡ widen (half n) (m.value e)
    value_widened e w =
        value-sext_one m n pos_n small e (m.value e) (record { width = w; content = refl })

    wide_sum :
        to_signed (n + 1) (m.value (b.build_add (b.build_sext x 1) (b.build_sext y 1)))
        ≡ integer x +ℤ integer y
    unfolding integer
    wide_sum =
        to_signed_wide n _ pos_n
        ∙ ap (signed (2 * half n)) (
            m.value-add (b.build_sext x 1) (b.build_sext y 1) sext_widths
            ∙ rw (value_widened x wx, value_widened y wy, wide_width))
        ∙ signed-widen_add (half n) (m.value x) (m.value y) (fits x wx) (fits y wy)

    wide_difference :
        to_signed (n + 1) (m.value (b.build_sub (b.build_sext x 1) (b.build_sext y 1)))
        ≡ integer x -ℤ integer y
    unfolding integer
    wide_difference =
        to_signed_wide n _ pos_n
        ∙ ap (signed (2 * half n)) (
            m.value-sub (b.build_sext x 1) (b.build_sext y 1) sext_widths
            ∙ rw (value_widened x wx, value_widened y wy, wide_width))
        ∙ signed-widen_sub (half n) (m.value x) (m.value y) (fits x wx) (fits y wy)

    -- For operands of one width from 1 to 63 bits, signed saturating addition succeeds with an
    -- expression of that width whose signed value is the sum of the operands' signed values,
    -- taken to the nearest bound of the width.
    pub build_sadd_sat-Gives :
        Gives
          (build_sadd_sat b x y)
          (clamp (smallest n) (greatest n) (to_signed n (m.value x) +ℤ to_signed n (m.value y)))
    unfolding build_sadd_sat integer
    build_sadd_sat-Gives =
        let (min, made_min, lo) = build_min_signed_int_lem m n pos_n small in
        let (max, made_max, hi) = build_max_signed_int_lem m n pos_n small in
        let wide : E = b.build_add (b.build_sext x 1) (b.build_sext y 1) in
        let done =
          build_saturated-value min max wide (b.build_add x y) (integer x +ℤ integer y) lo hi
            (m.bits-add (b.build_sext x 1) (b.build_sext y 1) sext_widths ∙ sext_width) wide_sum
            (m.bits-add x y (wx ∙ sym wy) ∙ wx)
            (λ p q.
              to_integer (b.build_add x y)
              ∙ ap (signed (half n)) (m.value-add x y (wx ∙ sym wy) ∙ rw full_width)
              ∙ signed-add (half n) (m.value x) (m.value y) (fits x wx) (fits y wy) p q) in
        (
          build_saturated b min max wide (b.build_add x y),
          rw (wx, made_min, made_max),
          done.0,
          done.1 ∙ rw (to_integer x, to_integer y),
        )

    -- For operands of one width from 1 to 63 bits, signed saturating subtraction succeeds with an
    -- expression of that width whose signed value is the difference of the operands' signed
    -- values, taken to the nearest bound of the width.
    pub build_ssub_sat-Gives :
        Gives
          (build_ssub_sat b x y)
          (clamp (smallest n) (greatest n) (to_signed n (m.value x) -ℤ to_signed n (m.value y)))
    unfolding build_ssub_sat integer
    build_ssub_sat-Gives =
        let (min, made_min, lo) = build_min_signed_int_lem m n pos_n small in
        let (max, made_max, hi) = build_max_signed_int_lem m n pos_n small in
        let wide : E = b.build_sub (b.build_sext x 1) (b.build_sext y 1) in
        let done =
          build_saturated-value min max wide (b.build_sub x y) (integer x -ℤ integer y) lo hi
            (m.bits-sub (b.build_sext x 1) (b.build_sext y 1) sext_widths ∙ sext_width)
            wide_difference (m.bits-sub x y (wx ∙ sym wy) ∙ wx)
            (λ p q.
              to_integer (b.build_sub x y)
              ∙ ap (signed (half n)) (m.value-sub x y (wx ∙ sym wy) ∙ rw full_width)
              ∙ signed-sub (half n) (m.value x) (m.value y) (fits x wx) (fits y wy) p q) in
        (
          build_saturated b min max wide (b.build_sub x y),
          rw (wx, made_min, made_max),
          done.0,
          done.1 ∙ rw (to_integer x, to_integer y),
        )
