-- ===== src/Compiler/Equivalence.antt =====
-- compiler/Symbolizer.cpp: a computation around which there are checks, against one that always has
-- expressions for its inputs.
pub mod Unknown
use sym_cc_modified.Base.{
  ℕ, zero, suc, ◌+◌, ◌≡◌, ◌⊎◌, inl, inr, refl, sym, ap, ◌∙◌, subst, Bool, true, false, ◌&&◌, not,
  Option, none, some, List, [], ◌∷◌, ◌==◌, ==_iff, if◌then◌else◌, ◌>>=◌, Bool-cases, Option-cases,
  arith,
}
use sym_cc_modified.Compiler.Ir.{
  Value, type_of, DataLayout, ValueCode, Operand, null_expression, result, concrete, number, site,
  Placed,
}
use sym_cc_modified.Compiler.Values.{create_value_expression}
use sym_cc_modified.Compiler.Symbolizer.{SymbolicComputation, Input, operand_at}
use sym_cc_modified.Compiler.Ready.{AreReadyInputs, IsNonempty, IsReadyComputation}
use sym_cc_modified.Compiler.ShortCircuit.{
  ArgumentCode, keep, create, check_and_create, ShortCircuit, symbolic_operands, is_null_expression,
  num_unknown_concreteness, argument_code, argument_codes, short_circuit_inputs, short_circuit,
  is_null_input, all_inputs_null, argument_value, argument_values, run_short_circuit,
}
use sym_cc_modified.Compiler.Equivalence.Unknown.{AreSymbolic, null_expression-value, one_unknown}

-- An expression can be built for each input's value.
abbrev pub AreCreatable : DataLayout → List Input → Type 0
AreCreatable layout [] = Unit
AreCreatable layout (input ∷ inputs) =
    ((code : ValueCode) × (create_value_expression layout (type_of input.concrete_value)
          input.concrete_value
        ≡ some code))
    × AreCreatable layout inputs

-- The inputs' operands are there.
pub symbolic_operands-AreReadyInputs :
    (code : List Placed) (first last : ℕ) (inputs : List Input)
    → AreReadyInputs code first last inputs
    → (os : List Operand) × (symbolic_operands code inputs ≡ some os)
unfolding symbolic_operands
symbolic_operands-AreReadyInputs code first last [] h = ([], refl)
symbolic_operands-AreReadyInputs code first last (input ∷ inputs) ((lo, hi, o, at, ok), rest) =
    let (os, found) = symbolic_operands-AreReadyInputs code first last inputs rest in
    (o ∷ os, rw (at, found) refl)

-- An input's code can be chosen.
argument_code-IsCreatable :
    (layout : DataLayout) (unknown : ℕ) (o : Operand) (input : Input) (code : ValueCode)
    → create_value_expression layout (type_of input.concrete_value) input.concrete_value ≡ some code
    → (a : ArgumentCode) × (argument_code layout unknown o input ≡ some a)
unfolding argument_code
argument_code-IsCreatable layout unknown o input code made =
    elim (Bool-cases (not (is_null_expression o) && (unknown == 1))) [
      | inl only ↦ (keep, rw only refl)
      | inr other ↦ (
        (if not (is_null_expression o) then check_and_create code else create code),
        rw (other, made) refl,
      )
    ]

pub argument_codes-AreCreatable :
    (layout : DataLayout) (unknown : ℕ) (os : List Operand) (inputs : List Input)
    → AreCreatable layout inputs
    → (codes : List ArgumentCode) × (argument_codes layout unknown os inputs ≡ some codes)
unfolding argument_codes
argument_codes-AreCreatable layout unknown [] inputs made = ([], refl)
argument_codes-AreCreatable layout unknown (o ∷ os) [] made = ([], refl)
argument_codes-AreCreatable layout unknown (o ∷ os) (input ∷ inputs) ((code, this), made) =
    let (a, first) = argument_code-IsCreatable layout unknown o input code this in
    let (codes, rest) = argument_codes-AreCreatable layout unknown os inputs made in
    (a ∷ codes, rw (first, rest) refl)

module _ {E : Type 0} (value : Operand → Option E) (created : ValueCode → E) where
  -- An input's expression, or one for its value where that is null.
  pub input_expression : DataLayout → Option E → Input → Option E
  input_expression layout (some e) input = some e
  input_expression layout none input =
      create_value_expression layout (type_of input.concrete_value) input.concrete_value >>= λ code.
      some (created code)

  pub input_expressions : DataLayout → List Operand → List Input → Option (List E)
  unfolding input_expression
  input_expressions layout (o ∷ os) (input ∷ inputs) =
      input_expression layout (value o) input >>= λ e.
      input_expressions layout os inputs >>= λ es. some (e ∷ es)
  input_expressions layout os inputs = some []

  -- One input: its code gives what the reference gives.
  argument_code-input_expression :
      (layout : DataLayout) (unknown : ℕ) (o : Operand) (input : Input) (code : ValueCode)
      (x : Option E)
      → create_value_expression layout (type_of input.concrete_value) input.concrete_value
        ≡ some code
      → (is_null_expression o ≡ true → x ≡ none)
      → (unknown ≡ 1 → is_null_expression o ≡ false → (e : E) × (x ≡ some e))
      → (a : ArgumentCode) × (e : E) × (argument_code layout unknown o input ≡ some a)
        × (argument_value created a x ≡ some e)
        × (input_expression layout x input ≡ some e)
  unfolding argument_code argument_value input_expression
  argument_code-input_expression layout unknown o input code none made null only =
      elim (Bool-cases (is_null_expression o)) [
        | inl known ↦ (create code, created code, rw (known, made) refl, refl, rw made refl)
        | inr open_ ↦ elim (Bool-cases (unknown == 1)) [
          | inl one ↦
              let (e, is_some) = only ((==_iff unknown 1).0 one) open_ in absurd (ground arith)
          | inr many ↦
              (check_and_create code, created code, rw (open_, many, made) refl, refl, rw made refl)
        ]
      ]
  argument_code-input_expression layout unknown o input code (some e) made null only =
      elim (Bool-cases (is_null_expression o)) [
        | inl known ↦ let is_none = null known in absurd (ground arith)
        | inr open_ ↦ elim (Bool-cases (unknown == 1)) [
          | inl one ↦ (keep, e, rw (open_, one) refl, refl, refl)
          | inr many ↦ (check_and_create code, e, rw (open_, many, made) refl, refl, refl)
        ]
      ]

  -- All the inputs.
  argument_codes-input_expressions :
      (layout : DataLayout) (unknown : ℕ) (os : List Operand) (inputs : List Input)
      → value null_expression ≡ none
      → AreCreatable layout inputs
      → (unknown ≡ 1 → AreSymbolic value os)
      → (codes : List ArgumentCode) × (es : List E) × (argument_codes layout unknown os inputs
          ≡ some codes)
        × (argument_values value created codes os ≡ some es)
        × (input_expressions layout os inputs ≡ some es)
  unfolding argument_codes argument_values input_expressions
  argument_codes-input_expressions layout unknown [] inputs null made only =
      ([], [], refl, refl, refl)
  argument_codes-input_expressions layout unknown (o ∷ os) [] null made only =
      ([], [], refl, refl, refl)
  argument_codes-input_expressions layout unknown (o ∷ os) (input ∷ inputs) null
        ((code, this), made) only =
      let (codes, es, p, q, r) =
        argument_codes-input_expressions layout unknown os inputs null made (λ one. (only one).1) in
      let (a, e, p₁, q₁, r₁) =
        argument_code-input_expression layout unknown o input code (value o) this
          (null_expression-value value o null) (λ one. (only one).0) in
      (a ∷ codes, e ∷ es, rw (p₁, p) refl, rw (q₁, q) refl, rw (r₁, r) refl)

  input_expression-IsCreatable :
      (layout : DataLayout) (x : Option E) (input : Input) (code : ValueCode)
      → create_value_expression layout (type_of input.concrete_value) input.concrete_value
        ≡ some code
      → (e : E) × (input_expression layout x input ≡ some e)
  unfolding input_expression
  input_expression-IsCreatable layout none input code made = (created code, rw made refl)
  input_expression-IsCreatable layout (some e) input code made = (e, refl)

  input_expressions-AreCreatable :
      (layout : DataLayout) (os : List Operand) (inputs : List Input)
      → AreCreatable layout inputs
      → (es : List E) × (input_expressions layout os inputs ≡ some es)
  unfolding input_expressions
  input_expressions-AreCreatable layout [] inputs made = ([], refl)
  input_expressions-AreCreatable layout (o ∷ os) [] made = ([], refl)
  input_expressions-AreCreatable layout (o ∷ os) (input ∷ inputs) ((code, this), made) =
      let (es, rest) = input_expressions-AreCreatable layout os inputs made in
      let (e, first) = input_expression-IsCreatable layout (value o) input code this in
      (e ∷ es, rw (first, rest) refl)

  short_circuit_inputs-input_expressions :
      (layout : DataLayout) (code : List Placed) (first last : ℕ) (inputs : List Input)
      (computed : List E → E)
      → value null_expression ≡ none
      → IsNonempty inputs
      → AreReadyInputs code first last inputs
      → AreCreatable layout inputs
      → (plan : ShortCircuit) × (es : List E) × (short_circuit_inputs layout code inputs
          ≡ some plan)
        × (symbolic_operands code inputs ≡ some plan.null_checks)
        × (input_expressions layout plan.null_checks inputs ≡ some es)
        × (run_short_circuit value created computed plan
            ≡ some (if all_inputs_null value plan.null_checks then none else some (computed es)))
  unfolding short_circuit_inputs run_short_circuit
  short_circuit_inputs-input_expressions layout code first last [] computed null some_input ready
        made =
      absurd some_input
  short_circuit_inputs-input_expressions layout code first last (input ∷ inputs) computed null
        some_input ready made =
      let (os, found) = symbolic_operands-AreReadyInputs code first last (input ∷ inputs) ready in
      elim (Bool-cases (all_inputs_null value os)) [
        | inl all ↦
            let (codes, p) =
              argument_codes-AreCreatable layout (num_unknown_concreteness os) os (input ∷ inputs)
                made in
            let (es, q) = input_expressions-AreCreatable layout os (input ∷ inputs) made in
            (
              record { null_checks = os; arguments = codes },
              es,
              rw (found, p) refl,
              found,
              q,
              rw all refl,
            )
        | inr some_symbolic ↦
            let (codes, es, p, q, r) =
              argument_codes-input_expressions layout (num_unknown_concreteness os) os
                (input ∷ inputs) null made (λ one. one_unknown value os null one some_symbolic) in
            (
              record { null_checks = os; arguments = codes },
              es,
              rw (found, p) refl,
              found,
              r,
              rw (some_symbolic, q) refl,
            )
      ]

  -- For a ready computation for whose inputs' values expressions can be built, if the null
  -- expression is null at run time, the computation is short-circuited, and at run time its
  -- result is null if all its inputs are null; otherwise it reads no null input and its result is
  -- computed from the expression of each input that is not null and from one built for the value
  -- of each input that is.
  pub short_circuit-input_expressions :
      (layout : DataLayout) (code : List Placed) (c : SymbolicComputation) (computed : List E → E)
      → value null_expression ≡ none
      → IsReadyComputation code c
      → AreCreatable layout c.inputs
      → (plan : ShortCircuit) × (es : List E) × (short_circuit layout code c ≡ some plan)
        × (symbolic_operands code c.inputs ≡ some plan.null_checks)
        × (input_expressions layout plan.null_checks c.inputs ≡ some es)
        × (run_short_circuit value created computed plan
            ≡ some (if all_inputs_null value plan.null_checks then none else some (computed es)))
  unfolding short_circuit IsReadyComputation
  short_circuit-input_expressions layout code c computed null (bounded, some_input) made =
      short_circuit_inputs-input_expressions layout code _ _ c.inputs computed null some_input
        bounded.7 made
