-- ===== src/Compiler/Members.antt =====
-- compiler/Symbolizer.cpp: the visitors of the instructions that take or replace a member of an
-- aggregate, and of those on control flow that are not in Visit.
use sym_cc_modified.Base.{
  ℕ, ◌%◌, ◌^◌, Bool, ◌&&◌, Option, none, some, List, [], ◌∷◌, ◌++◌, if◌then◌else◌, ◌>>=◌, length,
  replicate,
}
use sym_cc_modified.Compiler.Runtime.{
  push_path_constraint, build_insert, build_extract, comparison_handlers, icmp_eq,
  notify_basic_block, get_parameter_expression,
}
use sym_cc_modified.Compiler.Ir.{
  Ty, Value, DataLayout, Operand, null_expression, result, number, site, call, phi, compare_values,
  value_expression, before, if_symbolic, block_entry, type_of,
}
use sym_cc_modified.Compiler.Values.{
  is_little_endian_type, aggregate_member_offset, create_value_expression,
}
use sym_cc_modified.Compiler.Symbolizer.{
  Symbolizer, SymbolicComputation, Input, symbolic, merge, emit, set_expression,
  get_symbolic_expression, get_symbolic_expression_or_null, is_concrete_argument,
  register_symbolic_computation,
}
use sym_cc_modified.Compiler.Visit.{
  flag_operand, convert_bit_vector_expr_for_type, convert_expr_for_type_to_bit_vector_expr,
  converted_operand,
}

-- The computation of the inserted instruction alone, with its first input.
unfoldable pub insert_computation : ℕ → Value → List Input → SymbolicComputation
insert_computation insert target more = record {
  first_instruction = some insert;
  last_instruction = some insert;
  inputs = record { concrete_value = target; operand_index = 0; user = insert } ∷ more;
}

unfoldable pub whole_insertion :
    Option SymbolicComputation → ℕ → Value → Value → SymbolicComputation
unfolding insert_computation
whole_insertion none insert target inserted =
    insert_computation insert target
      (record { concrete_value = inserted; operand_index = 1; user = insert } ∷ [])
whole_insertion (some conversion) insert target inserted =
    merge conversion (insert_computation insert target [])

unfoldable pub visit_insert_value_inst :
    DataLayout → Symbolizer → ℕ → Value → Value → List ℕ → Option Symbolizer
unfolding whole_insertion
visit_insert_value_inst layout s id target inserted indices =
    if is_concrete_argument s (symbolic target) && is_concrete_argument s (symbolic inserted)
    then some s
    else (aggregate_member_offset layout (type_of target) indices >>= λ member.
        let (s₁, conversion) = convert_expr_for_type_to_bit_vector_expr s (before id) inserted in
        let (s₂, insert) = emit s₁ (before id) (
          call build_insert (
            get_symbolic_expression_or_null s₁ target
            ∷ converted_operand s₁ conversion inserted
            ∷ number member.0
            ∷ flag_operand (is_little_endian_type layout (type_of inserted))
            ∷ [])) in
        some (
          register_symbolic_computation s₂ (whole_insertion conversion insert target inserted)
            (some id)))

unfoldable pub visit_extract_value_inst :
    DataLayout → Symbolizer → ℕ → Value → List ℕ → Ty → Option Symbolizer
visit_extract_value_inst layout s id target indices type = elim (get_symbolic_expression s target) [
  | none ↦ some s
  | some target_expr ↦ aggregate_member_offset layout (type_of target) indices >>= λ member.
      let (s₁, extracted) = emit s (before id) (
        call build_extract (
          target_expr
          ∷ number member.0
          ∷ number (layout.type_store_size type)
          ∷ flag_operand (is_little_endian_type layout type)
          ∷ [])) in
      let (s₂, converted) = convert_bit_vector_expr_for_type s₁ (before id) extracted type in
      some (
        register_symbolic_computation s₂
          (record {
            first_instruction = some extracted;
            last_instruction = some converted;
            inputs = record { concrete_value = target; operand_index = 0; user = extracted } ∷ [];
          })
          (some id))
]

unfoldable pub visit_phi_node : Symbolizer → ℕ → List Value → Symbolizer
visit_phi_node s id incoming =
    let noted : Symbolizer = record s { phi_nodes = s.phi_nodes ++ ((id, incoming) ∷ []) } in
    let (later, expr) =
      emit noted (before id) (phi (replicate (length incoming) null_expression)) in
    set_expression later id (some (result expr))

-- One path constraint per case, in the block that is entered if the condition has an expression.
unfoldable pub push_cases :
    DataLayout → Symbolizer → ℕ → Value → Operand → List Value → Option Symbolizer
push_cases layout s id condition condition_expr [] = some s
push_cases layout s id condition condition_expr (case_value ∷ cases) =
    create_value_expression layout (type_of case_value) case_value >>= λ code.
    comparison_handlers icmp_eq >>= λ handler.
    let point = if_symbolic condition_expr id in
    let (s₁, taken) = emit s point (compare_values condition case_value) in
    let (s₂, case_expr) = emit s₁ point (value_expression code) in
    let (s₃, constraint) = emit s₂ point (call handler (condition_expr ∷ result case_expr ∷ [])) in
    let (s₄, push) =
      emit s₃ point (call push_path_constraint (result constraint ∷ result taken ∷ site id ∷ [])) in
    push_cases layout s₄ id condition condition_expr cases

unfoldable pub visit_switch_inst :
    DataLayout → Symbolizer → ℕ → Value → List Value → Option Symbolizer
unfolding push_cases
visit_switch_inst layout s id condition cases = elim (get_symbolic_expression s condition) [
  | none ↦ some s
  | some condition_expr ↦ push_cases layout s id condition condition_expr cases
]

-- `symbolizeFunctionArguments`: the arguments that are used, with their numbers and their places in
-- the list; the entry block has the number `entry`. The number of an argument is passed in 8 bits.
unfoldable pub symbolize_arguments : Symbolizer → ℕ → List (ℕ × ℕ) → Symbolizer
symbolize_arguments s entry [] = s
symbolize_arguments s entry ((id, place) ∷ arguments) =
    let (later, expr) =
      emit s (block_entry entry) (call get_parameter_expression (number (place % 2 ^ 8) ∷ [])) in
    symbolize_arguments (set_expression later id (some (result expr))) entry arguments

unfoldable pub symbolize_function_arguments : Bool → Symbolizer → ℕ → List (ℕ × ℕ) → Symbolizer
unfolding symbolize_arguments
symbolize_function_arguments is_main s entry arguments =
    if is_main then s else symbolize_arguments s entry arguments

unfoldable pub insert_basic_block_notification : Symbolizer → ℕ → Symbolizer
insert_basic_block_notification s block =
    (emit s (block_entry block) (call notify_basic_block (site block ∷ []))).0
