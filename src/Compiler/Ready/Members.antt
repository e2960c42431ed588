-- ===== src/Compiler/Ready/Members.antt =====
-- compiler/Symbolizer.cpp: the visitors of Compiler/Members keep the state ready.
use sym_cc_modified.Base.{
  ℕ, ◌<◌, inl, inr, refl, sym, subst, Bool, true, false, ◌&&◌, Option, none, some, List, [], ◌∷◌,
  length, arith, Bool-cases,
}
use sym_cc_modified.Compiler.Runtime.{build_insert, build_extract, comparison_handlers, icmp_eq}
use sym_cc_modified.Compiler.Ir.{
  Ty, Value, Operand, number, call, before, block_entry, type_of, DataLayout,
}
use sym_cc_modified.Compiler.Values.{
  is_little_endian_type, aggregate_member_offset, create_value_expression,
}
use sym_cc_modified.Compiler.Symbolizer.{
  Symbolizer, SymbolicComputation, symbolic, merge, emit, get_symbolic_expression,
  get_symbolic_expression_or_null, is_concrete_argument,
}
use sym_cc_modified.Compiler.Visit.{
  flag_operand, convert_bit_vector_expr_for_type, convert_expr_for_type_to_bit_vector_expr,
  converted_operand,
}
use sym_cc_modified.Compiler.Members.{
  insert_computation, whole_insertion, visit_insert_value_inst, visit_extract_value_inst,
  visit_phi_node, push_cases, visit_switch_inst, symbolize_arguments, symbolize_function_arguments,
  insert_basic_block_notification,
}
use sym_cc_modified.Compiler.Ready.{
  IsReady, IsReadyComputation, IsNonempty-++, lt-snoc, operand_at-last,
}
use sym_cc_modified.Compiler.Ready.Steps.{
  emit-IsReady, get_symbolic_expression-IsOptionalExpression,
  get_symbolic_expression_or_null-IsExpression, register_symbolic_computation-IsReady,
  merge-IsBounded,
}
use sym_cc_modified.Compiler.Ready.Results.{
  IsReadyOption, IsReadySome, IsReadySome-bind, IsReadySome-known, IsBounded-one_input,
  IsBounded-IsReadyComputation,
}
use sym_cc_modified.Compiler.Ready.Visits.{
  emitted_result-IsReady, convert_bit_vector_expr_for_type-IsConversion,
  convert_expr_for_type_to_bit_vector_expr-IsReadyOption, IsReadyOption-IsReady,
}

-- The insertion after the conversion, where there is one.
whole_insertion-IsReadyComputation :
    (start : ℕ) (s : Symbolizer) (conversion : Option SymbolicComputation) (id : ℕ)
    (target inserted : Value) (more : List Operand)
    → IsReadyOption start (s, conversion)
    → IsReadyComputation
        (emit s (before id) (
          call build_insert (
            get_symbolic_expression_or_null s target
            ∷ converted_operand s conversion inserted
            ∷ more))).0.code
        (whole_insertion conversion (length s.code) target inserted)
unfolding emit whole_insertion insert_computation merge converted_operand IsReadyComputation
whole_insertion-IsReadyComputation start s none id target inserted more h =
    let operands =
      get_symbolic_expression_or_null s target
      ∷ get_symbolic_expression_or_null s inserted
      ∷ more in
    (
      (
        length s.code,
        length s.code,
        refl,
        refl,
        omega arith,
        omega arith,
        lt-snoc s.code _,
        (
          (
            omega arith,
            omega arith,
            _,
            operand_at-last s.code (before id) build_insert operands 0,
            get_symbolic_expression_or_null-IsExpression s target h,
          ),
          (
            (
              omega arith,
              omega arith,
              _,
              operand_at-last s.code (before id) build_insert operands 1,
              get_symbolic_expression_or_null-IsExpression s inserted h,
            ),
            tt,
          ),
        ),
      ),
      tt,
    )
whole_insertion-IsReadyComputation start s (some c) id target inserted more
      (h, bounded, some_input) =
    IsBounded-IsReadyComputation start _ _
      (merge-IsBounded start s.code _ c _ bounded (
        length s.code,
        length s.code,
        refl,
        refl,
        omega arith,
        omega arith,
        lt-snoc s.code _,
        (
          (
            omega arith,
            omega arith,
            _,
            operand_at-last s.code (before id) build_insert
                (get_symbolic_expression_or_null s target ∷ _ ∷ more) 0,
            get_symbolic_expression_or_null-IsExpression s target h,
          ),
          tt,
        ),
      ))
      (IsNonempty-++ c.inputs _ some_input)

pub visit_insert_value_inst-IsReadySome :
    (layout : DataLayout) (s : Symbolizer) (id : ℕ) (target inserted : Value) (indices : List ℕ)
    → IsReady s
    → IsReadySome (visit_insert_value_inst layout s id target inserted indices)
unfolding visit_insert_value_inst emit
visit_insert_value_inst-IsReadySome layout s id target inserted indices h =
    elim (Bool-cases
      (is_concrete_argument s (symbolic target) && is_concrete_argument s (symbolic inserted))) [
        | inl both ↦ rw both h
        | inr known ↦ rw known (
            IsReadySome-bind (aggregate_member_offset layout (type_of target) indices) _ (λ member.
              let built = convert_expr_for_type_to_bit_vector_expr s (before id) inserted in
              let ready =
                convert_expr_for_type_to_bit_vector_expr-IsReadyOption s (before id) inserted h in
              register_symbolic_computation-IsReady _ _ (some id)
                (emit-IsReady built.0 (before id) _
                  (IsReadyOption-IsReady (length s.code) built ready))
                (whole_insertion-IsReadyComputation (length s.code) built.0 built.1 id target
                  inserted _ ready)))
      ]

pub visit_extract_value_inst-IsReadySome :
    (layout : DataLayout) (s : Symbolizer) (id : ℕ) (target : Value) (indices : List ℕ) (type : Ty)
    → IsReady s
    → IsReadySome (visit_extract_value_inst layout s id target indices type)
unfolding visit_extract_value_inst emit
visit_extract_value_inst-IsReadySome layout s id target indices type h =
    IsReadySome-known (length s.code) s (get_symbolic_expression s target) _ h
      (get_symbolic_expression-IsOptionalExpression s target h)
      (λ target_expr ok.
        IsReadySome-bind (aggregate_member_offset layout (type_of target) indices) _ (λ member.
          let (s₁, extracted) = emit s (before id) (
            call build_extract (
              target_expr
              ∷ number member.0
              ∷ number (layout.type_store_size type)
              ∷ flag_operand (is_little_endian_type layout type)
              ∷ [])) in
          let (s₂, converted) = convert_bit_vector_expr_for_type s₁ (before id) extracted type in
          let (ready, more, same, le, lt) =
            convert_bit_vector_expr_for_type-IsConversion s₁ (before id) extracted type
              (emit-IsReady s (before id) _ h) (lt-snoc s.code _) in
          register_symbolic_computation-IsReady _ _ (some id) ready (
            subst
              (λ code. IsReadyComputation code (record {
                first_instruction = some extracted;
                last_instruction = some converted;
                inputs =
                    record { concrete_value = target; operand_index = 0; user = extracted } ∷ [];
              }))
              (sym same)
              (IsBounded-one_input s.code more (before id) build_extract target_expr _ target
                extracted converted (omega arith) le
                (subst (λ code. converted < length code) same lt) ok))))

pub visit_phi_node-IsReady :
    (s : Symbolizer) (id : ℕ) (incoming : List Value)
    → IsReady s
    → IsReady (visit_phi_node s id incoming)
unfolding visit_phi_node IsReady
visit_phi_node-IsReady s id incoming h = emitted_result-IsReady _ (before id) _ id h

push_cases-IsReadySome :
    (layout : DataLayout) (id : ℕ) (condition : Value) (expr : Operand) (cases : List Value)
    (s : Symbolizer)
    → IsReady s
    → IsReadySome (push_cases layout s id condition expr cases)
unfolding push_cases
push_cases-IsReadySome layout id condition expr [] s h = h
push_cases-IsReadySome layout id condition expr (case_value ∷ cases) s h =
    IsReadySome-bind (create_value_expression layout (type_of case_value) case_value) _ (λ code.
      IsReadySome-bind (comparison_handlers icmp_eq) _ (λ handler.
        push_cases-IsReadySome layout id condition expr cases _
          (emit-IsReady _ _ _ (emit-IsReady _ _ _ (emit-IsReady _ _ _ (emit-IsReady s _ _ h))))))

pub visit_switch_inst-IsReadySome :
    (layout : DataLayout) (s : Symbolizer) (id : ℕ) (condition : Value) (cases : List Value)
    → IsReady s
    → IsReadySome (visit_switch_inst layout s id condition cases)
unfolding visit_switch_inst
visit_switch_inst-IsReadySome layout s id condition cases h =
    IsReadySome-known (length s.code) s (get_symbolic_expression s condition) _ h
      (get_symbolic_expression-IsOptionalExpression s condition h)
      (λ expr ok. push_cases-IsReadySome layout id condition expr cases s h)

symbolize_arguments-IsReady :
    (entry : ℕ) (arguments : List (ℕ × ℕ)) (s : Symbolizer)
    → IsReady s
    → IsReady (symbolize_arguments s entry arguments)
unfolding symbolize_arguments
symbolize_arguments-IsReady entry [] s h = h
symbolize_arguments-IsReady entry ((id, place) ∷ arguments) s h =
    symbolize_arguments-IsReady entry arguments _
      (emitted_result-IsReady s (block_entry entry) _ id h)

pub symbolize_function_arguments-IsReady :
    (is_main : Bool) (s : Symbolizer) (entry : ℕ) (arguments : List (ℕ × ℕ))
    → IsReady s
    → IsReady (symbolize_function_arguments is_main s entry arguments)
unfolding symbolize_function_arguments
symbolize_function_arguments-IsReady true s entry arguments h = h
symbolize_function_arguments-IsReady false s entry arguments h =
    symbolize_arguments-IsReady entry arguments s h

pub insert_basic_block_notification-IsReady :
    (s : Symbolizer) (block : ℕ) → IsReady s → IsReady (insert_basic_block_notification s block)
unfolding insert_basic_block_notification
insert_basic_block_notification-IsReady s block h = emit-IsReady s (block_entry block) _ h
