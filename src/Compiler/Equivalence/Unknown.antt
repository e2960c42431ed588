-- ===== src/Compiler/Equivalence/Unknown.antt =====
-- compiler/Symbolizer.cpp: the operands that may be null at run time, where only one may be symbolic.
use sym_cc_modified.Base.{
  suc, ◌≡◌, ◌⊎◌, inl, inr, refl, sym, ap, ◌∙◌, subst, Bool, true, false, ◌&&◌, Option, none, some,
  List, [], ◌∷◌, Option-cases, arith,
}
use sym_cc_modified.Compiler.Ir.{Operand, null_expression, result, concrete, number, site}
use sym_cc_modified.Compiler.ShortCircuit.{
  is_null_expression, num_unknown_concreteness, is_null_input, all_inputs_null,
}

module _ {E : Type 0} (value : Operand → Option E) where
  -- An operand that is not the null expression has an expression at run time.
  abbrev pub AreSymbolic : List Operand → Type 0
  AreSymbolic [] = Unit
  AreSymbolic (o ∷ os) =
      (is_null_expression o ≡ false → (e : E) × (value o ≡ some e)) × AreSymbolic os

  -- The operands other than the null expression, counted.
  num_unknown_concreteness-∷ :
      (o : Operand) (os : List Operand)
      → ((o ≡ null_expression) × (num_unknown_concreteness (o ∷ os) ≡ num_unknown_concreteness os))
        ⊎ ((is_null_expression o ≡ false)
            × (num_unknown_concreteness (o ∷ os) ≡ suc (num_unknown_concreteness os)))
  unfolding num_unknown_concreteness is_null_expression
  num_unknown_concreteness-∷ null_expression os = inl (refl, refl)
  num_unknown_concreteness-∷ (result i) os = inr (refl, refl)
  num_unknown_concreteness-∷ (concrete v) os = inr (refl, refl)
  num_unknown_concreteness-∷ (number n) os = inr (refl, refl)
  num_unknown_concreteness-∷ (site n) os = inr (refl, refl)

  pub null_expression-value :
      (o : Operand) → value null_expression ≡ none → is_null_expression o ≡ true → value o ≡ none
  unfolding is_null_expression
  null_expression-value null_expression null h = null
  null_expression-value (result i) null h = absurd (ground arith)
  null_expression-value (concrete v) null h = absurd (ground arith)
  null_expression-value (number n) null h = absurd (ground arith)
  null_expression-value (site n) null h = absurd (ground arith)

  null_expression-IsSymbolic :
      (o : Operand)
      → o ≡ null_expression
      → is_null_expression o ≡ false
      → (e : E) × (value o ≡ some e)
  unfolding is_null_expression
  null_expression-IsSymbolic null_expression same h = absurd (ground arith)
  null_expression-IsSymbolic (result i) same h = absurd (ground arith)
  null_expression-IsSymbolic (concrete v) same h = absurd (ground arith)
  null_expression-IsSymbolic (number n) same h = absurd (ground arith)
  null_expression-IsSymbolic (site n) same h = absurd (ground arith)

  none_unknown :
      (os : List Operand)
      → value null_expression ≡ none
      → num_unknown_concreteness os ≡ 0
      → AreSymbolic os × (all_inputs_null value os ≡ true)
  unfolding num_unknown_concreteness all_inputs_null is_null_input
  none_unknown [] null h = (tt, refl)
  none_unknown (o ∷ os) null h = elim (num_unknown_concreteness-∷ o os) [
    | inl (same, count) ↦
        let rest = none_unknown os null (sym count ∙ h) in
        (((null_expression-IsSymbolic o same), rest.0), rw (ap value same ∙ null) rest.1)
    | inr (differ, count) ↦ absurd (omega arith)
  ]

  all_contra : {b : Bool} → b ≡ false → b ≡ true → ⊥
  all_contra {b = true} p q = ground arith
  all_contra {b = false} p q = ground arith

  -- The only operand that may be symbolic is so, unless all are null.
  pub one_unknown :
      (os : List Operand)
      → value null_expression ≡ none
      → num_unknown_concreteness os ≡ 1
      → all_inputs_null value os ≡ false
      → AreSymbolic os
  unfolding all_inputs_null is_null_input
  one_unknown [] null h some_symbolic = absurd (ground arith)
  one_unknown (o ∷ os) null h some_symbolic = elim (num_unknown_concreteness-∷ o os) [
    | inl (same, count) ↦ (
      null_expression-IsSymbolic o same,
      one_unknown os null (sym count ∙ h) (
          subst (λ e. is_null_input e && all_inputs_null value os ≡ false) (ap value same ∙ null)
            some_symbolic),
    )
    | inr (differ, count) ↦
        let rest = none_unknown os null (omega arith) in
        (
          (λ p. elim (Option-cases (value o)) [
            | inl is_null_o ↦ absurd (
                all_contra
                  (subst (λ e. is_null_input e && all_inputs_null value os ≡ false) is_null_o
                    some_symbolic)
                  rest.1)
            | inr known ↦ known
          ]),
          rest.0,
        )
  ]
