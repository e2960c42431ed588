-- ===== src/Tests/CompilerRuns.antt =====
-- Runs of the compiler pass.
use sym_cc_modified.Base.{
  ℕ, ◌*◌, ◌≡◌, refl, true, false, Option, none, some, List, [], ◌∷◌, if◌then◌else◌, length, arith,
  ◌>>=◌,
}
use sym_cc_modified.Compiler.Runtime.{
  binary_operator_handlers, add, icmp_ult, build_add, get_parameter_expression, notify_basic_block,
}
use sym_cc_modified.Compiler.Ir.{
  Ty, int_type, float_type, pointer_type, local, constant_int, DataLayout, integer_code, Operand,
  null_expression, result, number, site, call, phi, before, block_entry, Placed, type_of,
}
use sym_cc_modified.Compiler.Values.{create_value_expression}
use sym_cc_modified.Compiler.Symbolizer.{
  build_and_register, find_expression, get_symbolic_expression, get_symbolic_expression_or_null,
  is_concrete_argument, result_of, Symbolizer, SymbolicComputation, emit, set_expression,
  operand_at,
}
use sym_cc_modified.Compiler.Visit.{
  is_integer, is_floating, is_pointer, bit_width, is_bool, binary_handler, visit_binary_operator,
}
use sym_cc_modified.Compiler.Casts.{visit_bit_cast_inst}
use sym_cc_modified.Compiler.Members.{
  visit_phi_node, symbolize_function_arguments, insert_basic_block_notification,
}
use sym_cc_modified.Compiler.Pass.{
  binary_operator, cmp_inst, branch_inst, load_inst, store_inst, phi_node, Function, visit_function,
}
use sym_cc_modified.Compiler.PhiNodes.{finalize_phi_nodes}
use sym_cc_modified.Compiler.ShortCircuit.{
  ShortCircuit, all_inputs_null, run_short_circuit, short_circuit, symbolic_operands,
}
use sym_cc_modified.Compiler.Support.{is_supported_bit_cast, is_single, all_supported}
use sym_cc_modified.Compiler.Ready.{IsExpression, IsReady, IsReadyComputation}
use sym_cc_modified.Compiler.Total.Functions.{visit_function-IsReady}
use sym_cc_modified.Compiler.Total.Pass.{AreAllCreatable}
use sym_cc_modified.Compiler.Equivalence.{input_expressions, short_circuit-input_expressions}

abbrev pub layout : DataLayout
layout = record {
  element_offset = λ fields i. 4 * i;
  type_store_size = λ type. 4;
  type_alloc_size = λ type. 4;
  is_little_endian = true;
  pointer_bits = 64;
}

abbrev pub int32 : Ty
int32 = int_type 32

-- A function that loads a number, adds its first argument, compares the sum and stores it.
abbrev loading : Function
loading = record {
  is_excluded = false;
  is_main = false;
  entry_block = 10;
  used_arguments = (1, 0) ∷ (2, 1) ∷ [];
  blocks = 10 ∷ [];
  instructions =
      (3, load_inst int32 (local 2 pointer_type))
      ∷ (4, binary_operator add (local 1 int32) (local 3 int32))
      ∷ (5, cmp_inst icmp_ult (local 4 int32) (constant_int 32 7))
      ∷ (6, branch_inst (some (local 5 (int_type 1))))
      ∷ (7, store_inst (local 2 pointer_type) (local 4 int32))
      ∷ [];
}

loading-supported : all_supported loading.instructions ≡ true
unfolding all_supported is_single is_bool type_of
loading-supported = refl

visit_function-IsReady_example :
    (s : Symbolizer) × (visit_function layout loading ≡ some s) × IsReady s
visit_function-IsReady_example = visit_function-IsReady layout loading loading-supported

-- A function that adds its argument to itself, with a PHI node of the sum.
abbrev doubling : Function
doubling = record {
  is_excluded = false;
  is_main = false;
  entry_block = 10;
  used_arguments = (1, 0) ∷ [];
  blocks = 10 ∷ [];
  instructions =
      (4, binary_operator add (local 1 int32) (local 1 int32))
      ∷ (5, phi_node (local 4 int32 ∷ []))
      ∷ [];
}

abbrev doubling_code : List Operand → List Placed
doubling_code incoming =
    record { point = block_entry 10; emitted = call get_parameter_expression (number 0 ∷ []) }
    ∷ record { point = block_entry 10; emitted = call notify_basic_block (site 10 ∷ []) }
    ∷ record { point = before 4; emitted = call build_add (result 0 ∷ result 0 ∷ []) }
    ∷ record { point = before 5; emitted = phi incoming }
    ∷ []

abbrev addition : SymbolicComputation
addition = record {
  first_instruction = some 2;
  last_instruction = some 2;
  inputs =
      record { concrete_value = local 1 int32; operand_index = 0; user = 2 }
      ∷ record { concrete_value = local 1 int32; operand_index = 1; user = 2 }
      ∷ [];
}

abbrev visited : Symbolizer
visited = record {
  symbolic_expressions = (5, result 3) ∷ (4, result 2) ∷ (1, result 0) ∷ [];
  expression_uses = addition ∷ [];
  phi_nodes = (5, local 4 int32 ∷ []) ∷ [];
  code = doubling_code (null_expression ∷ []);
}

abbrev finalized : Symbolizer
finalized = record visited { code = doubling_code (result 2 ∷ []); symbolic_expressions = [] }

doubling-visited : visit_function layout doubling ≡ some visited
unfolding visit_function symbolize_function_arguments insert_basic_block_notification
    visit_binary_operator binary_handler binary_operator_handlers is_bool type_of build_and_register
    visit_phi_node emit set_expression find_expression get_symbolic_expression
    get_symbolic_expression_or_null is_concrete_argument result_of
doubling-visited = refl

visited-finalized : finalize_phi_nodes visited ≡ some finalized
unfolding finalize_phi_nodes find_expression is_concrete_argument get_symbolic_expression
    get_symbolic_expression_or_null
visited-finalized = refl

doubling-creatable : AreAllCreatable layout finalized.expression_uses
unfolding create_value_expression type_of
doubling-creatable =
    (((integer_code (local 1 int32) 32, refl), ((integer_code (local 1 int32) 32, refl), tt)), tt)

addition-ready : IsReadyComputation finalized.code addition
unfolding IsReadyComputation IsExpression operand_at
addition-ready = (
  (
    2,
    2,
    refl,
    refl,
    omega arith,
    omega arith,
    omega arith,
    (
      (omega arith, omega arith, result 0, refl, omega arith),
      ((omega arith, omega arith, result 0, refl, omega arith), tt),
    ),
  ),
  tt,
)

-- The parameter has the expression 5.
abbrev value : Operand → Option ℕ
value (result i) = some 5
value o = none

short_circuit-input_expressions_example :
    (plan : ShortCircuit) × (es : List ℕ) × (short_circuit layout finalized.code addition
      ≡ some plan)
    × (symbolic_operands finalized.code addition.inputs ≡ some plan.null_checks)
    × (input_expressions value (λ code. 9) layout plan.null_checks addition.inputs ≡ some es)
    × (run_short_circuit value (λ code. 9) length plan
        ≡ some (if all_inputs_null value plan.null_checks then none else some (length es)))
short_circuit-input_expressions_example =
    short_circuit-input_expressions value (λ code. 9) layout finalized.code addition length refl
      addition-ready doubling-creatable.0

-- The bits of a number are made a floating-point number, and the result has that expression.
from_bits : is_supported_bit_cast int32 float_type ≡ true
unfolding is_supported_bit_cast is_integer is_floating is_pointer
from_bits = refl

bits-from_bits :
    (visit_bit_cast_inst visited 6 (local 4 int32) float_type >>= λ s.
    get_symbolic_expression s (local 6 float_type))
    ≡ some (result 4)
unfolding visit_bit_cast_inst is_integer is_floating is_pointer type_of build_and_register
    find_expression get_symbolic_expression get_symbolic_expression_or_null is_concrete_argument
    result_of emit set_expression
bits-from_bits = refl

-- A wider number gets the bits that it lacks.
wider : bit_width (int_type 64) ≡ 64
unfolding bit_width
wider = refl
