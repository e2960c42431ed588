-- ===== src/Arithmetic/Absolute.antt =====
-- The absolute value, and the widths for which the constants of the saturating operations are
-- undefined.
use native.Mathlib.Nat.{mod-eq_of_lt, zero-mod}
use sym_cc_modified.Base.{
  ℕ, ◌+◌, ◌-◌, ◌*◌, ◌%◌, ◌^◌, ◌≡◌, ◌<◌, ◌≤◌, refl, sym, ap, ap₂, ◌∙◌, none, arith, ltb, ◌==◌,
  if◌then◌else◌, u8, subst, Bool-cases, Option-cases, inl, inr,
}
use sym_cc_modified.Base.Int.{to_signed, leb_ℤ, pos_part, neg_part}
use sym_cc_modified.Base.Signed.{signed}
use sym_cc_modified.Builder.{Builder, Meaning, bit}
use sym_cc_modified.Arithmetic.{
  build_min_signed_int, build_max_signed_int, build_max_unsigned_int, build_uadd_sat,
  build_sadd_sat, build_ssub_sat, build_sshl_sat, build_ushl_sat, build_abs,
}
use sym_cc_modified.Arithmetic.Widths.{half, pow_half, to_signed_lem}

module _ {E : Type 0} (b : Builder E) where
  max_signed_none : (n : ℕ) → 64 ≤ n → n < 256 → build_max_signed_int b n ≡ none
  unfolding build_max_signed_int
  max_signed_none n p q = ground arith

  max_unsigned_none : (n : ℕ) → 64 ≤ n → n < 256 → build_max_unsigned_int b n ≡ none
  unfolding build_max_unsigned_int
  max_unsigned_none n p q = ground arith

  -- For a first operand of 64 to 255 bits, each saturating operation but the unsigned subtraction
  -- shifts a 64-bit one by 64 bits or more, which is undefined behaviour.
  pub saturation_undefined :
      (x y : E)
      → 64 ≤ b.bits_helper x
      → b.bits_helper x < 256
      → (build_sadd_sat b x y ≡ none)
        × (build_ssub_sat b x y ≡ none)
        × (build_sshl_sat b x y ≡ none)
        × (build_uadd_sat b x y ≡ none)
        × (build_ushl_sat b x y ≡ none)
  unfolding build_sadd_sat build_ssub_sat build_sshl_sat build_uadd_sat build_ushl_sat
  saturation_undefined x y p q =
      let signed_none = max_signed_none (b.bits_helper x) p q in
      let unsigned_none = max_unsigned_none (b.bits_helper x) p q in
      elim (Option-cases (build_min_signed_int b (b.bits_helper x))) [
        | inl none_min ↦ rw (none_min, unsigned_none) (refl, refl, refl, refl, refl)
        | inr (min, made) ↦ rw (made, signed_none, unsigned_none) (refl, refl, refl, refl, refl)
      ]

module _ {E : Type 0} {b : Builder E} (m : Meaning b) where
  -- The distance from zero. Of the smallest number it is a pattern that is negative again.
  absolute :
      (h v : ℕ)
      → v < 2 * h
      → (if bit (leb_ℤ (signed h 0) (signed h v)) == 0 then (0 + 2 * h - v) % (2 * h) else v)
        ≡ pos_part (signed h v) + neg_part (signed h v)
  absolute h v small = elim (Bool-cases (ltb v h)) [
    | inl low ↦ rw low (ground arith)
    | inr high ↦
        rw (high, mod-eq_of_lt {n = 0 + 2 * h - v} {m = 2 * h} (ground arith)) (ground arith)
  ]

  -- The absolute value of an expression of 1 to 255 bits has its width, and read without a sign
  -- it is the distance from zero of the signed value of the expression.
  pub build_abs_lem :
      (e : E) (n : ℕ)
      → 0 < n
      → n < 256
      → b.bits_helper e ≡ n
      → (b.bits_helper (build_abs b e) ≡ n)
        × (m.value (build_abs b e)
            ≡ pos_part (to_signed n (m.value e)) + neg_part (to_signed n (m.value e)))
  unfolding build_abs
  build_abs_lem e n some_bits small w =
      let byte : u8 (b.bits_helper e) ≡ n = omega arith in
      let zero_expr : E = b.build_integer 0 (u8 (b.bits_helper e)) in
      let zero_width : b.bits_helper zero_expr ≡ n = m.bits-integer 0 _ ∙ byte in
      let zero_value : m.value zero_expr ≡ 0 = m.value-integer 0 _ ∙ zero-mod _ in
      let negated : E = b.build_sub zero_expr e in
      let negated_width : b.bits_helper negated ≡ n =
        m.bits-sub zero_expr e (zero_width ∙ sym w) ∙ zero_width in
      let full : 2 ^ b.bits_helper zero_expr ≡ 2 * half n =
        ap (λ (t : ℕ). 2 ^ t) zero_width ∙ pow_half n some_bits in
      let negated_value : m.value negated ≡ (0 + 2 * half n - m.value e) % (2 * half n) =
        m.value-sub zero_expr e (zero_width ∙ sym w) ∙ rw (full, zero_value) refl in
      let fits : m.value e < 2 * half n =
        subst (λ t. m.value e < t) (ap (λ (t : ℕ). 2 ^ t) w ∙ pow_half n some_bits)
          (m.value-lt e) in
      let test : m.value (b.build_signed_greater_equal e zero_expr)
          ≡ bit (leb_ℤ (signed (half n) 0) (signed (half n) (m.value e))) =
        subst
          (λ t.
            m.value (b.build_signed_greater_equal e zero_expr)
            ≡ bit (leb_ℤ (to_signed t (m.value zero_expr)) (to_signed t (m.value e))))
          w (m.value-signed_greater_equal e zero_expr (w ∙ sym zero_width))
        ∙ ap₂ (λ s t. bit (leb_ℤ s t)) (ap (to_signed n) zero_value ∙ to_signed_lem n 0 some_bits)
            (to_signed_lem n (m.value e) some_bits) in
      (
        m.bits-ite _ e negated (w ∙ sym negated_width) ∙ w,
        m.value-ite _ e negated (w ∙ sym negated_width)
            ∙ rw (test, negated_value) (absolute (half n) (m.value e) fits)
            ∙ sym (ap (λ s. pos_part s + neg_part s) (to_signed_lem n (m.value e) some_bits)),
      )
