-- ===== src/Compiler/ShortCircuit.antt =====
-- compiler/Symbolizer.cpp: `shortCircuitExpressionUses`. Of the code that it puts around a
-- computation, the model has the checks and what happens to each input.
use sym_cc_modified.Base.{
  ℕ, suc, Bool, true, false, ◌&&◌, not, Option, none, some, List, [], ◌∷◌, ◌==◌, if◌then◌else◌,
  ◌>>=◌,
}
use sym_cc_modified.Compiler.Ir.{type_of, DataLayout, ValueCode, Operand, null_expression, Placed}
use sym_cc_modified.Compiler.Values.{create_value_expression}
use sym_cc_modified.Compiler.Symbolizer.{SymbolicComputation, Input, operand_at}

-- The input stays as it is, is replaced by an expression for its value, or is replaced if it is
-- null at run time.
pub data ArgumentCode : Type 0 where
  keep : ArgumentCode
  create check_and_create : ValueCode → ArgumentCode

pub record ShortCircuit : Type 0 where
  pub null_checks : List Operand
  pub arguments : List ArgumentCode

unfoldable pub symbolic_operands : List Placed → List Input → Option (List Operand)
symbolic_operands code [] = some []
symbolic_operands code (input ∷ inputs) = operand_at code input.user input.operand_index >>= λ o.
    symbolic_operands code inputs >>= λ os. some (o ∷ os)

unfoldable pub is_null_expression : Operand → Bool
is_null_expression null_expression = true
is_null_expression o = false

unfoldable pub num_unknown_concreteness : List Operand → ℕ
unfolding is_null_expression
num_unknown_concreteness [] = 0
num_unknown_concreteness (o ∷ os) =
    if is_null_expression o then num_unknown_concreteness os else suc (num_unknown_concreteness os)

-- The code for one input; `unknown` inputs may be symbolic.
unfoldable pub argument_code : DataLayout → ℕ → Operand → Input → Option ArgumentCode
unfolding is_null_expression
argument_code layout unknown o input =
    let need_runtime_check = not (is_null_expression o) in
    if need_runtime_check && (unknown == 1)
    then some keep
    else (create_value_expression layout (type_of input.concrete_value) input.concrete_value
        >>= λ code. some (if need_runtime_check then check_and_create code else create code))

unfoldable pub argument_codes :
    DataLayout → ℕ → List Operand → List Input → Option (List ArgumentCode)
unfolding argument_code
argument_codes layout unknown (o ∷ os) (input ∷ inputs) =
    argument_code layout unknown o input >>= λ code.
    argument_codes layout unknown os inputs >>= λ codes. some (code ∷ codes)
argument_codes layout unknown os inputs = some []

-- `none` stands for the assertion that there is an input, and for `llvm_unreachable`.
unfoldable pub short_circuit_inputs : DataLayout → List Placed → List Input → Option ShortCircuit
unfolding symbolic_operands num_unknown_concreteness argument_codes
short_circuit_inputs layout code [] = none
short_circuit_inputs layout code (input ∷ inputs) =
    symbolic_operands code (input ∷ inputs) >>= λ os.
    argument_codes layout (num_unknown_concreteness os) os (input ∷ inputs) >>= λ codes.
    some (record { null_checks = os; arguments = codes })

unfoldable pub short_circuit : DataLayout → List Placed → SymbolicComputation → Option ShortCircuit
unfolding short_circuit_inputs
short_circuit layout code computation = short_circuit_inputs layout code computation.inputs

unfoldable pub short_circuit_expression_uses :
    DataLayout → List Placed → List SymbolicComputation → Option (List ShortCircuit)
unfolding short_circuit
short_circuit_expression_uses layout code [] = some []
short_circuit_expression_uses layout code (computation ∷ computations) =
    short_circuit layout code computation >>= λ plan.
    short_circuit_expression_uses layout code computations >>= λ plans. some (plan ∷ plans)

unfoldable pub is_null_input : {E : Type 0} → Option E → Bool
is_null_input none = true
is_null_input (some e) = false

-- What the code does at run time. An operand has an expression or null for its value.
module _ {E : Type 0} (value : Operand → Option E) where
  unfoldable pub all_inputs_null : List Operand → Bool
  unfolding is_null_input
  all_inputs_null [] = true
  all_inputs_null (o ∷ os) = is_null_input (value o) && all_inputs_null os

-- Created expressions come from the run-time library.
module _ {E : Type 0} (created : ValueCode → E) where
  unfoldable pub argument_value : ArgumentCode → Option E → Option E
  argument_value keep e = e
  argument_value (create code) e = some (created code)
  argument_value (check_and_create code) none = some (created code)
  argument_value (check_and_create code) (some e) = some e

module _ {E : Type 0} (value : Operand → Option E) (created : ValueCode → E) where
  -- `none` if the computation reads an input that is null.
  unfoldable pub argument_values : List ArgumentCode → List Operand → Option (List E)
  unfolding argument_value
  argument_values (code ∷ codes) (o ∷ os) = argument_value created code (value o) >>= λ e.
      argument_values codes os >>= λ es. some (e ∷ es)
  argument_values codes os = some []

  -- The result is null on the fast path; otherwise it is what is `computed` from the inputs.
  unfoldable pub run_short_circuit : (List E → E) → ShortCircuit → Option (Option E)
  unfolding all_inputs_null argument_values
  run_short_circuit computed plan =
      if all_inputs_null value plan.null_checks
      then some none
      else (argument_values plan.arguments plan.null_checks >>= λ es. some (some (computed es)))
