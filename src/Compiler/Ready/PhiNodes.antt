-- ===== src/Compiler/Ready/PhiNodes.antt =====
-- compiler/Symbolizer.cpp: the computations are still ready when the PHI nodes are finished.
use sym_cc_modified.Base.{
  ℕ, zero, suc, ◌≡◌, inl, inr, refl, ◌∙◌, ap, Option, none, some, List, [], ◌∷◌, ◌>>=◌, get_elem?,
  map, length, Bool-cases, arith,
}
use sym_cc_modified.Compiler.Ir.{
  Value, Operand, null_expression, result, concrete, number, site, Emitted, call, select, phi,
  value_expression, compare_values, Placed,
}
use sym_cc_modified.Compiler.Symbolizer.{
  Symbolizer, SymbolicComputation, Input, operands_of, operands_at, operand_at,
}
use sym_cc_modified.Compiler.PhiNodes.{
  all_concrete_values, expressions_or_null, symbolic_phi, with_incoming, set_incoming_values,
  finalize_each, contains_node, replace_operand, replace_in, replace_uses, finalize_phi_nodes,
}
use sym_cc_modified.Compiler.Ready.{
  IsExpression, AreReadyInputs, IsReadyComputation, AreReadyComputations, IsReady,
}
use sym_cc_modified.Compiler.Ready.Results.{IsReadySome}

-- Code of the same length in which each input's operand is still an expression.
abbrev Keeps : List Placed → List Placed → Type 0
Keeps code later =
    (length later ≡ length code)
    × ((user i : ℕ) (o : Operand)
        → operand_at code user i ≡ some o
        → IsExpression user o
        → (o₁ : Operand) × (operand_at later user i ≡ some o₁) × IsExpression user o₁)

AreReadyInputs-Keeps :
    (code later : List Placed) (first last : ℕ) (inputs : List Input)
    → Keeps code later
    → AreReadyInputs code first last inputs
    → AreReadyInputs later first last inputs
AreReadyInputs-Keeps code later first last [] keeps h = tt
AreReadyInputs-Keeps code later first last (input ∷ inputs) keeps ((lo, hi, o, at, ok), rest) =
    let (o₁, at₁, ok₁) = keeps.1 input.user input.operand_index o at ok in
    ((lo, hi, o₁, at₁, ok₁), AreReadyInputs-Keeps code later first last inputs keeps rest)

AreReadyComputations-Keeps :
    (code later : List Placed) (cs : List SymbolicComputation)
    → Keeps code later
    → AreReadyComputations code cs
    → AreReadyComputations later cs
unfolding IsReadyComputation
AreReadyComputations-Keeps code later [] keeps h = tt
AreReadyComputations-Keeps code later (c ∷ cs) keeps
      (((first, last, p, q, from, le, lt, inputs), more), rest) =
    (
      (
        (
          first,
          last,
          p,
          q,
          from,
          le,
          omega (arith, keeps.0),
          AreReadyInputs-Keeps code later first last c.inputs keeps inputs,
        ),
        more,
      ),
      AreReadyComputations-Keeps code later cs keeps rest,
    )

set_incoming_values-length :
    (code : List Placed) (i : ℕ) (operands : List Operand)
    → length (set_incoming_values code i operands) ≡ length code
unfolding set_incoming_values
set_incoming_values-length [] i operands = refl
set_incoming_values-length (p ∷ code) zero operands = refl
set_incoming_values-length (p ∷ code) (suc i) operands =
    ap suc (set_incoming_values-length code i operands)

operands_of-with_incoming :
    (operands : List Operand) (emitted : Emitted)
    → operands_of (with_incoming operands emitted) ≡ operands_of emitted
unfolding with_incoming operands_of
operands_of-with_incoming operands (call function old) = refl
operands_of-with_incoming operands (select condition left right) = refl
operands_of-with_incoming operands (phi old) = refl
operands_of-with_incoming operands (value_expression code) = refl
operands_of-with_incoming operands (compare_values left right) = refl

-- The operands of calls stay, since a PHI node is none.
operand_at-set_incoming_values :
    (code : List Placed) (i : ℕ) (operands : List Operand) (user j : ℕ)
    → operand_at (set_incoming_values code i operands) user j ≡ operand_at code user j
unfolding set_incoming_values operand_at operands_at
operand_at-set_incoming_values [] i operands user j = refl
operand_at-set_incoming_values (p ∷ code) zero operands zero j =
    ap (λ os. get_elem? os j) (operands_of-with_incoming operands p.emitted)
operand_at-set_incoming_values (p ∷ code) zero operands (suc user) j = refl
operand_at-set_incoming_values (p ∷ code) (suc i) operands zero j = refl
operand_at-set_incoming_values (p ∷ code) (suc i) operands (suc user) j =
    operand_at-set_incoming_values code i operands user j

replace_uses-length :
    (nodes : List ℕ) (code : List Placed) → length (replace_uses nodes code) ≡ length code
unfolding replace_uses
replace_uses-length nodes [] = refl
replace_uses-length nodes (p ∷ code) = ap suc (replace_uses-length nodes code)

get_elem?-map :
    {A : Type 0} {B : Type 0} (f : A → B) (xs : List A) (i : ℕ) {x : A}
    → get_elem? xs i ≡ some x
    → get_elem? (map f xs) i ≡ some (f x)
get_elem?-map f [] i h = absurd (ground arith)
get_elem?-map f (y ∷ xs) zero h = ap (λ o. elim o [ none ↦ none | some a ↦ some (f a) ]) h
get_elem?-map f (y ∷ xs) (suc i) h = get_elem?-map f xs i h

get_elem?-replace_in :
    (nodes : List ℕ) (emitted : Emitted) (i : ℕ) {o : Operand}
    → get_elem? (operands_of emitted) i ≡ some o
    → get_elem? (operands_of (replace_in nodes emitted)) i ≡ some (replace_operand nodes o)
unfolding replace_in operands_of
get_elem?-replace_in nodes (call function operands) i h =
    get_elem?-map (replace_operand nodes) operands i h
get_elem?-replace_in nodes (select condition left right) i h = absurd (ground arith)
get_elem?-replace_in nodes (phi operands) i h = absurd (ground arith)
get_elem?-replace_in nodes (value_expression code) i h = absurd (ground arith)
get_elem?-replace_in nodes (compare_values left right) i h = absurd (ground arith)

operand_at-replace_uses :
    (nodes : List ℕ) (code : List Placed) (user i : ℕ) {o : Operand}
    → operand_at code user i ≡ some o
    → operand_at (replace_uses nodes code) user i ≡ some (replace_operand nodes o)
unfolding replace_uses operand_at operands_at
operand_at-replace_uses nodes [] user i h = absurd (ground arith)
operand_at-replace_uses nodes (p ∷ code) zero i h = get_elem?-replace_in nodes p.emitted i h
operand_at-replace_uses nodes (p ∷ code) (suc user) i h =
    operand_at-replace_uses nodes code user i h

replace_operand-IsExpression :
    (nodes : List ℕ) (n : ℕ) (o : Operand)
    → IsExpression n o
    → IsExpression n (replace_operand nodes o)
unfolding replace_operand IsExpression
replace_operand-IsExpression nodes n null_expression h = tt
replace_operand-IsExpression nodes n (result i) h = elim (Bool-cases (contains_node nodes i)) [
  | inl erased ↦ rw erased tt
  | inr kept ↦ rw kept h
]
replace_operand-IsExpression nodes n (concrete v) h = h
replace_operand-IsExpression nodes n (number m) h = h
replace_operand-IsExpression nodes n (site id) h = h

replace_uses-Keeps : (nodes : List ℕ) (code : List Placed) → Keeps code (replace_uses nodes code)
replace_uses-Keeps nodes code = (
  replace_uses-length nodes code,
  (λ user i o at ok. (
    replace_operand nodes o,
    operand_at-replace_uses nodes code user i at,
    replace_operand-IsExpression nodes user o ok,
  )),
)

-- The loop keeps every operand of a call.
abbrev AreReadySome : List SymbolicComputation → Option (List Placed × List ℕ) → Type 0
AreReadySome cs none = Unit
AreReadySome cs (some (code, nodes)) = AreReadyComputations code cs

AreReadySome-bind :
    (cs : List SymbolicComputation) (found : Option ℕ) (next : ℕ → Option (List Placed × List ℕ))
    → ((i : ℕ) → AreReadySome cs (next i))
    → AreReadySome cs (found >>= next)
AreReadySome-bind cs none next h = tt
AreReadySome-bind cs (some i) next h = h i

set_incoming_values-Keeps :
    (code : List Placed) (i : ℕ) (operands : List Operand)
    → Keeps code (set_incoming_values code i operands)
set_incoming_values-Keeps code i operands = (
  set_incoming_values-length code i operands,
  (λ user j o at ok. (o, operand_at-set_incoming_values code i operands user j ∙ at, ok)),
)

finalize_each-AreReadySome :
    (s : Symbolizer) (cs : List SymbolicComputation) (phis : List (ℕ × List Value))
    (code : List Placed) (nodes : List ℕ)
    → AreReadyComputations code cs
    → AreReadySome cs (finalize_each s phis code nodes)
unfolding finalize_each
finalize_each-AreReadySome s cs [] code nodes h = h
finalize_each-AreReadySome s cs ((id, incoming) ∷ phis) code nodes h =
    AreReadySome-bind cs (symbolic_phi s code id) _ (λ i.
      elim (Bool-cases (all_concrete_values s incoming)) [
        | inl all ↦ rw all (finalize_each-AreReadySome s cs phis code (i ∷ nodes) h)
        | inr known ↦
            let later = set_incoming_values code i (expressions_or_null s incoming) in
            rw known (
              finalize_each-AreReadySome s cs phis later nodes
                (AreReadyComputations-Keeps code later cs (set_incoming_values-Keeps code i _) h))
      ])

AreReadySome-IsReadySome :
    (s : Symbolizer) (found : Option (List Placed × List ℕ))
    → AreReadySome s.expression_uses found
    → IsReadySome (
        found >>= λ done.
        some (record s { code = replace_uses done.1 done.0; symbolic_expressions = [] }))
unfolding IsReady
AreReadySome-IsReadySome s none h = tt
AreReadySome-IsReadySome s (some (code, nodes)) h = (
  tt,
  AreReadyComputations-Keeps code (replace_uses nodes code) s.expression_uses
      (replace_uses-Keeps nodes code) h,
)

pub finalize_phi_nodes-IsReadySome :
    (s : Symbolizer) → IsReady s → IsReadySome (finalize_phi_nodes s)
unfolding finalize_phi_nodes IsReady
finalize_phi_nodes-IsReadySome s h =
    AreReadySome-IsReadySome s (finalize_each s s.phi_nodes s.code [])
      (finalize_each-AreReadySome s s.expression_uses s.phi_nodes s.code [] h.1)
