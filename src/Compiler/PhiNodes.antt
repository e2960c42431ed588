-- ===== src/Compiler/PhiNodes.antt =====
-- compiler/Symbolizer.cpp: `finalizePHINodes`. A PHI node that is erased keeps its number here, so
-- that the others keep theirs; it has no uses left.
use sym_cc_modified.Base.{
  ℕ, zero, suc, Bool, true, false, ◌&&◌, Option, none, some, List, [], ◌∷◌, ◌==◌, if◌then◌else◌,
  ◌>>=◌, get_elem?, map,
}
use sym_cc_modified.Compiler.Ir.{
  Value, Operand, null_expression, result, Emitted, call, select, phi, Placed,
}
use sym_cc_modified.Compiler.Symbolizer.{
  Symbolizer, symbolic, find_expression, get_symbolic_expression_or_null, is_concrete_argument,
}

pub all_concrete_values : Symbolizer → List Value → Bool
all_concrete_values s [] = true
all_concrete_values s (v ∷ vs) = is_concrete_argument s (symbolic v) && all_concrete_values s vs

pub expressions_or_null : Symbolizer → List Value → List Operand
expressions_or_null s [] = []
expressions_or_null s (v ∷ vs) = get_symbolic_expression_or_null s v ∷ expressions_or_null s vs

pub is_phi : Option Placed → Bool
is_phi none = false
is_phi (some placed) = elim placed.emitted [ phi operands ↦ true | _ ↦ false ]

-- `cast<PHINode>(symbolicExpressions[phi])`; `none` stands for the assertion of the cast.
pub symbolic_phi : Symbolizer → List Placed → ℕ → Option ℕ
unfolding is_phi
symbolic_phi s code id = find_expression s.symbolic_expressions id >>= λ expr. elim expr [
  | result i ↦ if is_phi (get_elem? code i) then some i else none
  | _ ↦ none
]

unfoldable pub with_incoming : List Operand → Emitted → Emitted
with_incoming operands (phi old) = phi operands
with_incoming operands emitted = emitted

-- The instruction at the index, as a PHI node with other operands.
unfoldable pub set_incoming_values : List Placed → ℕ → List Operand → List Placed
unfolding with_incoming
set_incoming_values [] i operands = []
set_incoming_values (placed ∷ code) zero operands =
    record placed { emitted = with_incoming operands placed.emitted } ∷ code
set_incoming_values (placed ∷ code) (suc i) operands = placed ∷ set_incoming_values code i operands

-- The loop over the PHI nodes: the code, and the nodes to erase.
unfoldable pub finalize_each :
    Symbolizer → List (ℕ × List Value) → List Placed → List ℕ → Option (List Placed × List ℕ)
unfolding all_concrete_values expressions_or_null symbolic_phi set_incoming_values
finalize_each s [] code nodes = some (code, nodes)
finalize_each s ((id, incoming) ∷ phis) code nodes = symbolic_phi s code id >>= λ i.
    if all_concrete_values s incoming
    then finalize_each s phis code (i ∷ nodes)
    else finalize_each s phis (set_incoming_values code i (expressions_or_null s incoming)) nodes

pub contains_node : List ℕ → ℕ → Bool
contains_node [] i = false
contains_node (node ∷ nodes) i = if node == i then true else contains_node nodes i

-- `replaceAllUsesWith` the null pointer.
unfoldable pub replace_operand : List ℕ → Operand → Operand
unfolding contains_node
replace_operand nodes (result i) = if contains_node nodes i then null_expression else result i
replace_operand nodes o = o

unfoldable pub replace_in : List ℕ → Emitted → Emitted
unfolding replace_operand
replace_in nodes (call function operands) = call function (map (replace_operand nodes) operands)
replace_in nodes (select condition left right) =
    select condition (replace_operand nodes left) (replace_operand nodes right)
replace_in nodes (phi operands) = phi (map (replace_operand nodes) operands)
replace_in nodes emitted = emitted

unfoldable pub replace_uses : List ℕ → List Placed → List Placed
unfolding replace_in
replace_uses nodes [] = []
replace_uses nodes (placed ∷ code) =
    record placed { emitted = replace_in nodes placed.emitted } ∷ replace_uses nodes code

-- The expressions of the values are cleared.
unfoldable pub finalize_phi_nodes : Symbolizer → Option Symbolizer
unfolding finalize_each replace_uses
finalize_phi_nodes s = finalize_each s s.phi_nodes s.code [] >>= λ done.
    some (record s { code = replace_uses done.1 done.0; symbolic_expressions = [] })
