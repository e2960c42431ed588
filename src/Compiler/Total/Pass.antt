-- ===== src/Compiler/Total/Pass.antt =====
-- compiler/Pass.cpp: every ready computation for whose inputs values can be made is short-circuited.
use sym_cc_modified.Base.{ℕ, suc, ◌≡◌, refl, ap, some, List, [], ◌∷◌, length}
use sym_cc_modified.Compiler.Ir.{DataLayout, Placed}
use sym_cc_modified.Compiler.Symbolizer.{SymbolicComputation, Input}
use sym_cc_modified.Compiler.ShortCircuit.{
  ShortCircuit, num_unknown_concreteness, short_circuit_inputs, short_circuit,
  short_circuit_expression_uses,
}
use sym_cc_modified.Compiler.Equivalence.{
  AreCreatable, symbolic_operands-AreReadyInputs, argument_codes-AreCreatable,
}
use sym_cc_modified.Compiler.Ready.{
  AreReadyInputs, IsNonempty, IsReadyComputation, AreReadyComputations,
}

-- An expression can be built for the value of every input of every computation.
abbrev pub AreAllCreatable : DataLayout → List SymbolicComputation → Type 0
AreAllCreatable layout [] = Unit
AreAllCreatable layout (c ∷ cs) = AreCreatable layout c.inputs × AreAllCreatable layout cs

short_circuit_inputs-IsReached :
    (layout : DataLayout) (code : List Placed) (first last : ℕ) (inputs : List Input)
    → IsNonempty inputs
    → AreReadyInputs code first last inputs
    → AreCreatable layout inputs
    → (plan : ShortCircuit) × (short_circuit_inputs layout code inputs ≡ some plan)
unfolding short_circuit_inputs
short_circuit_inputs-IsReached layout code first last [] some_input ready made = absurd some_input
short_circuit_inputs-IsReached layout code first last (input ∷ inputs) some_input ready made =
    let (os, found) = symbolic_operands-AreReadyInputs code first last (input ∷ inputs) ready in
    let (codes, chosen) =
      argument_codes-AreCreatable layout (num_unknown_concreteness os) os (input ∷ inputs) made in
    (record { null_checks = os; arguments = codes }, rw (found, chosen) refl)

short_circuit-IsReached :
    (layout : DataLayout) (code : List Placed) (c : SymbolicComputation)
    → IsReadyComputation code c
    → AreCreatable layout c.inputs
    → (plan : ShortCircuit) × (short_circuit layout code c ≡ some plan)
unfolding short_circuit IsReadyComputation
short_circuit-IsReached layout code c (bounded, some_input) made =
    short_circuit_inputs-IsReached layout code _ _ c.inputs some_input bounded.7 made

pub short_circuit_expression_uses-IsReached :
    (layout : DataLayout) (code : List Placed) (cs : List SymbolicComputation)
    → AreReadyComputations code cs
    → AreAllCreatable layout cs
    → (plans : List ShortCircuit) × (short_circuit_expression_uses layout code cs ≡ some plans)
      × (length plans ≡ length cs)
unfolding short_circuit_expression_uses
short_circuit_expression_uses-IsReached layout code [] ready made = ([], refl, refl)
short_circuit_expression_uses-IsReached layout code (c ∷ cs) (this, ready) (here, made) =
    let (plan, found) = short_circuit-IsReached layout code c this here in
    let (plans, rest, same) = short_circuit_expression_uses-IsReached layout code cs ready made in
    (plan ∷ plans, rw (found, rest) refl, ap suc same)
