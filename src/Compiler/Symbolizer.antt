-- ===== src/Compiler/Symbolizer.antt =====
-- compiler/Symbolizer.h: the state of the pass over a function, and the parts that all the
-- visitors are made of.
use sym_cc_modified.Base.{
  ℕ, ◌+◌, Bool, true, false, ◌&&◌, Option, none, some, List, [], ◌∷◌, ◌++◌, ◌==◌, if◌then◌else◌,
  ◌>>=◌, length, get_elem?,
}
use sym_cc_modified.Compiler.Runtime.{SymFn, build_equal, push_path_constraint}
use sym_cc_modified.Compiler.Ir.{
  Value, local, DataLayout, Operand, null_expression, result, concrete, number, site, Emitted, call,
  value_expression, Point, Placed, type_of,
}
use sym_cc_modified.Compiler.Values.{create_value_expression}

-- A symbolic input: the instruction that uses it is the one inserted as number `user`.
pub record Input : Type 0 where
  pub concrete_value : Value
  pub operand_index : ℕ
  pub user : ℕ

-- Instructions are `none` where the pointer is null.
pub record SymbolicComputation : Type 0 where
  pub first_instruction : Option ℕ
  pub last_instruction : Option ℕ
  pub inputs : List Input

unfoldable pub empty_computation : SymbolicComputation
empty_computation = record { first_instruction = none; last_instruction = none; inputs = [] }

-- `SymbolicComputation::merge` with another object.
unfoldable pub merge : SymbolicComputation → SymbolicComputation → SymbolicComputation
merge computation other = record {
  first_instruction = elim computation.first_instruction [
    | none ↦ other.first_instruction
    | some i ↦ some i
  ];
  last_instruction = other.last_instruction;
  inputs = computation.inputs ++ other.inputs;
}

-- The inserted instructions are numbered in the order in which they are made. A PHI node of the
-- program is its number with its incoming values.
pub record Symbolizer : Type 0 where
  pub symbolic_expressions : List (ℕ × Operand)
  pub expression_uses : List SymbolicComputation
  pub phi_nodes : List (ℕ × List Value)
  pub code : List Placed

-- The operands of an inserted call.
unfoldable pub operands_of : Emitted → List Operand
operands_of (call function operands) = operands
operands_of emitted = []

unfoldable pub operands_at : Option Placed → List Operand
unfolding operands_of
operands_at none = []
operands_at (some placed) = operands_of placed.emitted

-- `user->getOperand(operandIndex)`
unfoldable pub operand_at : List Placed → ℕ → ℕ → Option Operand
unfolding operands_at
operand_at code user i = get_elem? (operands_at (get_elem? code user)) i

unfoldable pub find_expression : List (ℕ × Operand) → ℕ → Option Operand
find_expression [] id = none
find_expression ((key, expr) ∷ entries) id =
    if key == id then some expr else find_expression entries id

unfoldable pub get_symbolic_expression : Symbolizer → Value → Option Operand
unfolding find_expression
get_symbolic_expression s (local id type) = find_expression s.symbolic_expressions id
get_symbolic_expression s v = none

unfoldable pub get_symbolic_expression_or_null : Symbolizer → Value → Operand
get_symbolic_expression_or_null s v = elim (get_symbolic_expression s v) [
  | none ↦ null_expression
  | some expr ↦ expr
]

-- `symbolicExpressions[id] = expr`; a null pointer is found like a missing entry.
unfoldable pub set_expression : Symbolizer → ℕ → Option Operand → Symbolizer
set_expression s id none = s
set_expression s id (some expr) = record s {
  symbolic_expressions = (id, expr) ∷ s.symbolic_expressions;
}

-- `IRBuilder` at a point.
unfoldable pub emit : Symbolizer → Point → Emitted → Symbolizer × ℕ
emit s point emitted = (
  record s { code = s.code ++ (record { point = point; emitted = emitted } ∷ []) },
  length s.code,
)

-- An argument of a call, and whether it is symbolic.
pub data Arg : Type 0 where
  symbolic : Value → Arg
  plain : Operand → Arg

unfoldable pub argument_operand : Symbolizer → Arg → Operand
unfolding get_symbolic_expression_or_null
argument_operand s (symbolic v) = get_symbolic_expression_or_null s v
argument_operand s (plain operand) = operand

unfoldable pub argument_operands : Symbolizer → List Arg → List Operand
unfolding argument_operand
argument_operands s [] = []
argument_operands s (arg ∷ args) = argument_operand s arg ∷ argument_operands s args

-- The inputs among the arguments from index `i` on.
unfoldable pub inputs_from : List Arg → ℕ → ℕ → List Input
inputs_from [] i user = []
inputs_from (symbolic v ∷ args) i user =
    record { concrete_value = v; operand_index = i; user = user } ∷ inputs_from args (i + 1) user
inputs_from (plain operand ∷ args) i user = inputs_from args (i + 1) user

unfoldable pub force_build_runtime_call :
    Symbolizer → Point → SymFn → List Arg → Symbolizer × SymbolicComputation
unfolding emit argument_operands inputs_from
force_build_runtime_call s point function args =
    let (later, user) = emit s point (call function (argument_operands s args)) in
    (
      later,
      record {
        first_instruction = some user;
        last_instruction = some user;
        inputs = inputs_from args 0 user;
      },
    )

-- Whether nothing is known of a symbolic expression for the argument's value.
unfoldable pub is_concrete_argument : Symbolizer → Arg → Bool
is_concrete_argument s (symbolic v) = elim (get_symbolic_expression s v) [
  | none ↦ true
  | some e ↦ false
]
is_concrete_argument s (plain (concrete v)) = elim (get_symbolic_expression s v) [
  | none ↦ true
  | some e ↦ false
]
is_concrete_argument s (plain operand) = true

pub all_concrete : Symbolizer → List Arg → Bool
unfolding is_concrete_argument
all_concrete s [] = true
all_concrete s (arg ∷ args) = is_concrete_argument s arg && all_concrete s args

unfoldable pub build_runtime_call :
    Symbolizer → Point → SymFn → List Arg → Symbolizer × Option SymbolicComputation
unfolding all_concrete force_build_runtime_call
build_runtime_call s point function args =
    if all_concrete s args
    then (s, none)
    else let (later, computation) = force_build_runtime_call s point function args in
      (later, some computation)

unfoldable pub result_of : Option ℕ → Option Operand
result_of none = none
result_of (some i) = some (result i)

unfoldable pub register_symbolic_computation :
    Symbolizer → SymbolicComputation → Option ℕ → Symbolizer
unfolding set_expression result_of
register_symbolic_computation s computation target =
    let mapped : Symbolizer = elim target [
      | none ↦ s
      | some id ↦ set_expression s id (result_of computation.last_instruction)
    ] in
    record mapped { expression_uses = mapped.expression_uses ++ (computation ∷ []) }

unfoldable pub register_optional : Symbolizer → Option SymbolicComputation → Option ℕ → Symbolizer
unfolding register_symbolic_computation
register_optional s none target = s
register_optional s (some computation) target = register_symbolic_computation s computation target

-- `buildRuntimeCall` chained with `registerSymbolicComputation`.
unfoldable pub build_and_register : Symbolizer → Point → SymFn → List Arg → Option ℕ → Symbolizer
unfolding build_runtime_call register_optional
build_and_register s point function args target =
    let (later, computation) = build_runtime_call s point function args in
    register_optional later computation target

-- `getTargetPreferredInt` of a value that can have an expression.
pub site_of : Value → Operand
site_of (local id type) = site id
site_of v = site 0

-- `none` where no expression can be made for the concrete value.
unfoldable pub try_alternative : DataLayout → Symbolizer → Point → Value → Option Symbolizer
unfolding emit register_symbolic_computation site_of
try_alternative layout s point v = elim (get_symbolic_expression s v) [
  | none ↦ some s
  | some dest_expr ↦ create_value_expression layout (type_of v) v >>= λ code.
      let (s₁, concrete_dest) = emit s point (value_expression code) in
      let (s₂, assertion) =
        emit s₁ point (call build_equal (dest_expr ∷ result concrete_dest ∷ [])) in
      let (s₃, push) =
        emit s₂ point (call push_path_constraint (result assertion ∷ number 1 ∷ site_of v ∷ [])) in
      some (
        register_symbolic_computation s₃
          (record {
            first_instruction = some concrete_dest;
            last_instruction = some push;
            inputs = record { concrete_value = v; operand_index = 0; user = assertion } ∷ [];
          })
          none)
]
