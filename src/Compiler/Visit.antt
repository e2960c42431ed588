-- ===== src/Compiler/Visit.antt =====
-- compiler/Symbolizer.cpp: the visitors of the instructions but calls. An instruction is given by
-- its number `id` and its operands; what is inserted stands in front of it. `none` stands for an
-- assertion that fails and for `llvm_unreachable`.
use sym_cc_modified.Base.{
  ℕ, Bool, true, false, ◌&&◌, Option, none, some, [], ◌∷◌, ◌==◌, if◌then◌else◌, ◌>>=◌,
}
use sym_cc_modified.Compiler.Runtime.{
  SymFn, BinaryOpcode, and, or, xor, Predicate, binary_operator_handlers, comparison_handlers,
  build_bool_and, build_bool_or, build_bool_xor, build_fp_neg, push_path_constraint,
  set_return_expression, read_memory, write_memory, build_bits_to_float, build_float_to_bits,
  build_trunc, build_bit_to_bool, build_bool_to_bit, build_zext,
}
use sym_cc_modified.Compiler.Ir.{
  Ty, int_type, float_type, double_type, pointer_type, Value, DataLayout, Operand, null_expression,
  result, concrete, number, site, call, select, Point, before, type_of,
}
use sym_cc_modified.Compiler.Values.{is_little_endian_type}
use sym_cc_modified.Compiler.Symbolizer.{
  Symbolizer, SymbolicComputation, symbolic, plain, merge, emit, set_expression,
  get_symbolic_expression_or_null, is_concrete_argument, force_build_runtime_call,
  build_runtime_call, build_and_register, try_alternative,
}

unfoldable pub is_floating : Ty → Bool
is_floating float_type = true
is_floating double_type = true
is_floating type = false

pub is_double : Ty → Bool
is_double double_type = true
is_double type = false

unfoldable pub is_integer : Ty → Bool
is_integer (int_type bits) = true
is_integer type = false

unfoldable pub is_bool : Ty → Bool
is_bool (int_type bits) = bits == 1
is_bool type = false

unfoldable pub is_pointer : Ty → Bool
is_pointer pointer_type = true
is_pointer type = false

-- `getIntegerBitWidth`
unfoldable pub bit_width : Ty → ℕ
bit_width (int_type bits) = bits
bit_width type = 0

pub flag_operand : Bool → Operand
flag_operand true = number 1
flag_operand false = number 0

-- The special case for `i1`.
unfoldable pub binary_handler : BinaryOpcode → Ty → Option SymFn
unfolding is_bool
binary_handler opcode type =
    if is_bool type
    then (elim opcode [
      | and ↦ some build_bool_and
      | or ↦ some build_bool_or
      | xor ↦ some build_bool_xor
      | _ ↦ none
    ])
    else some (binary_operator_handlers opcode)

-- `convertBitVectorExprForType`, of the inserted instruction `expr`.
unfoldable pub convert_bit_vector_expr_for_type : Symbolizer → Point → ℕ → Ty → Symbolizer × ℕ
unfolding is_floating is_double is_bool flag_operand
convert_bit_vector_expr_for_type s point expr type =
    if is_floating type
    then emit s point (call build_bits_to_float (result expr ∷ flag_operand (is_double type) ∷ []))
    else if is_bool type
    then (let (s₁, bit) = emit s point (call build_trunc (result expr ∷ number 1 ∷ [])) in
        emit s₁ point (call build_bit_to_bool (result bit ∷ [])))
    else (s, expr)

pub last_operand : SymbolicComputation → Operand
last_operand computation = elim computation.last_instruction [
  | none ↦ null_expression
  | some i ↦ result i
]

-- The bit that a Boolean is converted to gets seven more.
unfoldable pub widen_bit :
    Point → Symbolizer × Option SymbolicComputation → Symbolizer × Option SymbolicComputation
unfolding last_operand
widen_bit point (s, none) = (s, none)
widen_bit point (s, some computation) =
    let (later, extended) =
      force_build_runtime_call s point build_zext
        (plain (last_operand computation) ∷ plain (number 7) ∷ []) in
    (later, some (merge computation extended))

-- `convertExprForTypeToBitVectorExpr`
unfoldable pub convert_expr_for_type_to_bit_vector_expr :
    Symbolizer → Point → Value → Symbolizer × Option SymbolicComputation
unfolding is_floating is_bool widen_bit
convert_expr_for_type_to_bit_vector_expr s point v =
    if is_floating (type_of v)
    then build_runtime_call s point build_float_to_bits (symbolic v ∷ [])
    else if is_bool (type_of v)
    then widen_bit point (build_runtime_call s point build_bool_to_bit (symbolic v ∷ []))
    else (s, none)

unfoldable pub converted_operand : Symbolizer → Option SymbolicComputation → Value → Operand
converted_operand s conversion v = elim conversion [
  | none ↦ get_symbolic_expression_or_null s v
  | some computation ↦ last_operand computation
]

unfoldable pub visit_binary_operator :
    Symbolizer → ℕ → BinaryOpcode → Value → Value → Option Symbolizer
unfolding binary_handler
visit_binary_operator s id opcode left right = binary_handler opcode (type_of left) >>= λ handler.
    some (build_and_register s (before id) handler (symbolic left ∷ symbolic right ∷ []) (some id))

-- The one unary operator of LLVM negates a floating-point number.
unfoldable pub visit_unary_operator : Symbolizer → ℕ → Value → Symbolizer
visit_unary_operator s id v =
    build_and_register s (before id) build_fp_neg (symbolic v ∷ []) (some id)

unfoldable pub push_condition : Symbolizer → ℕ → Value → Symbolizer
push_condition s id condition =
    build_and_register s (before id) push_path_constraint
      (symbolic condition ∷ plain (concrete condition) ∷ plain (site id) ∷ []) none

unfoldable pub visit_select_inst : Symbolizer → ℕ → Value → Value → Value → Symbolizer
unfolding push_condition
visit_select_inst s id condition true_value false_value =
    let pushed = push_condition s id condition in
    if is_concrete_argument pushed (symbolic true_value)
      && is_concrete_argument pushed (symbolic false_value)
    then pushed
    else let (later, chosen) = emit pushed (before id) (
        select condition (get_symbolic_expression_or_null pushed true_value)
          (get_symbolic_expression_or_null pushed false_value)) in
      set_expression later id (some (result chosen))

unfoldable pub visit_cmp_inst : Symbolizer → ℕ → Predicate → Value → Value → Option Symbolizer
visit_cmp_inst s id predicate left right = comparison_handlers predicate >>= λ handler.
    some (build_and_register s (before id) handler (symbolic left ∷ symbolic right ∷ []) (some id))

unfoldable pub visit_return_inst : Symbolizer → ℕ → Option Value → Symbolizer
visit_return_inst s id none = s
visit_return_inst s id (some v) =
    (emit s (before id) (call set_return_expression (get_symbolic_expression_or_null s v ∷ []))).0

-- The condition of a conditional branch.
unfoldable pub visit_branch_inst : Symbolizer → ℕ → Option Value → Symbolizer
unfolding push_condition
visit_branch_inst s id none = s
visit_branch_inst s id (some condition) = push_condition s id condition

unfoldable pub visit_indirect_br_inst : DataLayout → Symbolizer → ℕ → Value → Option Symbolizer
visit_indirect_br_inst layout s id address = try_alternative layout s (before id) address

unfoldable pub visit_load_inst : DataLayout → Symbolizer → ℕ → Ty → Value → Option Symbolizer
unfolding convert_bit_vector_expr_for_type flag_operand
visit_load_inst layout s id type addr = try_alternative layout s (before id) addr >>= λ tried.
    let (read, loaded) = emit tried (before id) (
      call read_memory (
        concrete addr
        ∷ number (layout.type_store_size type)
        ∷ flag_operand (is_little_endian_type layout type)
        ∷ [])) in
    let (later, expr) = convert_bit_vector_expr_for_type read (before id) loaded type in
    some (set_expression later id (some (result expr)))

unfoldable pub visit_store_inst : DataLayout → Symbolizer → ℕ → Value → Value → Option Symbolizer
unfolding convert_expr_for_type_to_bit_vector_expr converted_operand flag_operand
visit_store_inst layout s id addr v = try_alternative layout s (before id) addr >>= λ tried.
    let (later, conversion) = convert_expr_for_type_to_bit_vector_expr tried (before id) v in
    some
      (emit later (before id) (
        call write_memory (
          concrete addr
          ∷ number (layout.type_store_size (type_of v))
          ∷ converted_operand later conversion v
          ∷ flag_operand (is_little_endian_type layout (type_of v))
          ∷ []))).0
