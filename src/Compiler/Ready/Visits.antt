-- ===== src/Compiler/Ready/Visits.antt =====
-- compiler/Symbolizer.cpp: the visitors of Compiler/Visit keep the state ready.
use sym_cc_modified.Base.{
  ℕ, ◌≡◌, ◌≤◌, ◌<◌, inl, inr, refl, sym, ◌&&◌, Option, none, some, List, [], ◌∷◌, ◌++◌, length,
  length-append, append_assoc, append-nil, arith, Bool-cases,
}
use sym_cc_modified.Compiler.Runtime.{
  BinaryOpcode, Predicate, build_bool_to_bit, build_zext, build_float_to_bits, build_equal,
  push_path_constraint, build_fp_neg, comparison_handlers,
}
use sym_cc_modified.Compiler.Ir.{
  Ty, Value, result, concrete, number, site, Emitted, call, value_expression, Point, before, Placed,
  type_of, DataLayout,
}
use sym_cc_modified.Compiler.Values.{create_value_expression}
use sym_cc_modified.Compiler.Symbolizer.{
  Symbolizer, SymbolicComputation, symbolic, plain, merge, emit, set_expression,
  get_symbolic_expression, is_concrete_argument, build_runtime_call, try_alternative, site_of,
}
use sym_cc_modified.Compiler.Visit.{
  is_floating, is_bool, last_operand, binary_handler, convert_bit_vector_expr_for_type,
  convert_expr_for_type_to_bit_vector_expr, widen_bit, push_condition, visit_binary_operator,
  visit_unary_operator, visit_select_inst, visit_cmp_inst, visit_return_inst, visit_branch_inst,
  visit_indirect_br_inst, visit_load_inst, visit_store_inst,
}
use sym_cc_modified.Compiler.Ready.{
  le-append, lt-snoc, le-append_of_lt, IsNonempty-++, IsExpression-le, IsExpression, IsReady,
}
use sym_cc_modified.Compiler.Ready.Steps.{
  emit-IsReady, set_expression-IsReady, get_symbolic_expression-IsOptionalExpression,
  register_symbolic_computation-IsReady, force_build_runtime_call-IsReady,
  force_build_runtime_call-merge,
}
use sym_cc_modified.Compiler.Ready.Results.{
  IsReadyOption, build_runtime_call-IsReadyOption, build_and_register-IsReady, IsReadySome,
  IsReadySome-bind, IsReadySome-after, IsBounded-one_input, IsReadySome-known,
}

pub try_alternative-IsReadySome :
    (layout : DataLayout) (s : Symbolizer) (point : Point) (v : Value)
    → IsReady s
    → IsReadySome (try_alternative layout s point v)
unfolding try_alternative emit
try_alternative-IsReadySome layout s point v h =
    IsReadySome-known (length s.code) s (get_symbolic_expression s v) _ h
      (get_symbolic_expression-IsOptionalExpression s v h)
      (λ dest_expr ok. IsReadySome-bind (create_value_expression layout (type_of v) v) _ (λ code.
        let (s₁, dest) = emit s point (value_expression code) in
        let (s₂, assertion) = emit s₁ point (call build_equal (dest_expr ∷ result dest ∷ [])) in
        let (s₃, push) =
          emit s₂ point
            (call push_path_constraint (result assertion ∷ number 1 ∷ site_of v ∷ [])) in
        register_symbolic_computation-IsReady s₃ _ none
          (emit-IsReady s₂ point _ (emit-IsReady s₁ point _ (emit-IsReady s point _ h)))
          (IsBounded-one_input s₁.code _ point build_equal dest_expr _ v dest push
            (le-append s.code _) (le-append s₁.code _) (lt-snoc s₂.code _)
            (IsExpression-le dest_expr (le-append s.code _) ok))))

pub visit_binary_operator-IsReadySome :
    (s : Symbolizer) (id : ℕ) (opcode : BinaryOpcode) (left right : Value)
    → IsReady s
    → IsReadySome (visit_binary_operator s id opcode left right)
unfolding visit_binary_operator
visit_binary_operator-IsReadySome s id opcode left right h =
    IsReadySome-bind (binary_handler opcode (type_of left)) _ (λ handler.
      build_and_register-IsReady s (before id) handler left (symbolic right ∷ []) (some id) h)

pub visit_unary_operator-IsReady :
    (s : Symbolizer) (id : ℕ) (v : Value) → IsReady s → IsReady (visit_unary_operator s id v)
unfolding visit_unary_operator
visit_unary_operator-IsReady s id v h =
    build_and_register-IsReady s (before id) build_fp_neg v [] (some id) h

pub push_condition-IsReady :
    (s : Symbolizer) (id : ℕ) (condition : Value)
    → IsReady s
    → IsReady (push_condition s id condition)
unfolding push_condition
push_condition-IsReady s id condition h =
    build_and_register-IsReady s (before id) push_path_constraint condition
      (plain (concrete condition) ∷ plain (site id) ∷ []) none h

-- A value that an instruction is just inserted for.
pub emitted_result-IsReady :
    (s : Symbolizer) (point : Point) (emitted : Emitted) (id : ℕ)
    → IsReady s
    → IsReady (set_expression (emit s point emitted).0 id (some (result (emit s point emitted).1)))
unfolding emit IsExpression
emitted_result-IsReady s point emitted id h =
    set_expression-IsReady (emit s point emitted).0 id (some (result (length s.code)))
      (emit-IsReady s point emitted h)
      (omega (arith, length-append s.code (record { point = point; emitted = emitted } ∷ [])))

pub visit_select_inst-IsReady :
    (s : Symbolizer) (id : ℕ) (condition true_value false_value : Value)
    → IsReady s
    → IsReady (visit_select_inst s id condition true_value false_value)
unfolding visit_select_inst
visit_select_inst-IsReady s id condition true_value false_value h =
    let pushed = push_condition-IsReady s id condition h in
    elim (Bool-cases (
      is_concrete_argument (push_condition s id condition) (symbolic true_value)
      && is_concrete_argument (push_condition s id condition) (symbolic false_value))) [
        | inl both ↦ rw both pushed
        | inr some_symbolic ↦
            rw some_symbolic
              (emitted_result-IsReady (push_condition s id condition) (before id) _ id pushed)
      ]

pub visit_cmp_inst-IsReadySome :
    (s : Symbolizer) (id : ℕ) (predicate : Predicate) (left right : Value)
    → IsReady s
    → IsReadySome (visit_cmp_inst s id predicate left right)
unfolding visit_cmp_inst
visit_cmp_inst-IsReadySome s id predicate left right h =
    IsReadySome-bind (comparison_handlers predicate) _ (λ handler.
      build_and_register-IsReady s (before id) handler left (symbolic right ∷ []) (some id) h)

pub visit_return_inst-IsReady :
    (s : Symbolizer) (id : ℕ) (v : Option Value) → IsReady s → IsReady (visit_return_inst s id v)
unfolding visit_return_inst
visit_return_inst-IsReady s id none h = h
visit_return_inst-IsReady s id (some v) h = emit-IsReady s (before id) _ h

pub visit_branch_inst-IsReady :
    (s : Symbolizer) (id : ℕ) (condition : Option Value)
    → IsReady s
    → IsReady (visit_branch_inst s id condition)
unfolding visit_branch_inst
visit_branch_inst-IsReady s id none h = h
visit_branch_inst-IsReady s id (some condition) h = push_condition-IsReady s id condition h

pub visit_indirect_br_inst-IsReadySome :
    (layout : DataLayout) (s : Symbolizer) (id : ℕ) (address : Value)
    → IsReady s
    → IsReadySome (visit_indirect_br_inst layout s id address)
unfolding visit_indirect_br_inst
visit_indirect_br_inst-IsReadySome layout s id address h =
    try_alternative-IsReadySome layout s (before id) address h

-- What a conversion of the result of instruction `expr` reaches.
abbrev pub IsConversion : Symbolizer → ℕ → Symbolizer × ℕ → Type 0
IsConversion s expr (later, converted) =
    IsReady later
    × (more : List Placed) × (later.code ≡ s.code ++ more)
    × (expr ≤ converted)
    × (converted < length later.code)

pub convert_bit_vector_expr_for_type-IsConversion :
    (s : Symbolizer) (point : Point) (expr : ℕ) (type : Ty)
    → IsReady s
    → expr < length s.code
    → IsConversion s expr (convert_bit_vector_expr_for_type s point expr type)
unfolding convert_bit_vector_expr_for_type emit
convert_bit_vector_expr_for_type-IsConversion s point expr type h lt =
    elim (Bool-cases (is_floating type)) [
      | inl floating ↦
          rw floating (emit-IsReady s point _ h, _, refl, omega arith, lt-snoc s.code _)
      | inr fixed ↦ rw fixed (elim (Bool-cases (is_bool type)) [
        | inl bool ↦ rw bool (
          emit-IsReady (emit s point _).0 point _ (emit-IsReady s point _ h),
          _,
          append_assoc s.code _ _,
          le-append_of_lt s.code _ lt,
          lt-snoc (emit s point _).0.code _,
        )
        | inr other ↦ rw other (h, [], sym (append-nil s.code), omega arith, lt)
      ])
    ]

widen_bit-IsReadyOption :
    (start : ℕ) (point : Point) (built : Symbolizer × Option SymbolicComputation)
    → IsReadyOption start built
    → IsReadyOption start (widen_bit point built)
unfolding widen_bit merge
widen_bit-IsReadyOption start point (s, none) h = h
widen_bit-IsReadyOption start point (s, some c) (h, bounded, more) =
    let args = plain (last_operand c) ∷ plain (number 7) ∷ [] in
    (
      force_build_runtime_call-IsReady s point build_zext args h,
      force_build_runtime_call-merge s point build_zext args start c h bounded,
      IsNonempty-++ c.inputs _ more,
    )

pub IsReadyOption-IsReady :
    (start : ℕ) (built : Symbolizer × Option SymbolicComputation)
    → IsReadyOption start built
    → IsReady built.0
IsReadyOption-IsReady start (s, none) h = h
IsReadyOption-IsReady start (s, some c) h = h.0

pub convert_expr_for_type_to_bit_vector_expr-IsReadyOption :
    (s : Symbolizer) (point : Point) (v : Value)
    → IsReady s
    → IsReadyOption (length s.code) (convert_expr_for_type_to_bit_vector_expr s point v)
unfolding convert_expr_for_type_to_bit_vector_expr
convert_expr_for_type_to_bit_vector_expr-IsReadyOption s point v h =
    elim (Bool-cases (is_floating (type_of v))) [
      | inl floating ↦
          rw floating (build_runtime_call-IsReadyOption s point build_float_to_bits v [] h)
      | inr fixed ↦ rw fixed (elim (Bool-cases (is_bool (type_of v))) [
        | inl bool ↦ rw bool (
            widen_bit-IsReadyOption (length s.code) point
              (build_runtime_call s point build_bool_to_bit (symbolic v ∷ []))
              (build_runtime_call-IsReadyOption s point build_bool_to_bit v [] h))
        | inr other ↦ rw other h
      ])
    ]

pub visit_load_inst-IsReadySome :
    (layout : DataLayout) (s : Symbolizer) (id : ℕ) (type : Ty) (addr : Value)
    → IsReady s
    → IsReadySome (visit_load_inst layout s id type addr)
unfolding visit_load_inst emit IsExpression
visit_load_inst-IsReadySome layout s id type addr h =
    IsReadySome-after (try_alternative layout s (before id) addr) _
      (try_alternative-IsReadySome layout s (before id) addr h)
      (λ tried ready.
        let converted =
          convert_bit_vector_expr_for_type-IsConversion _ (before id) (length tried.code) type
            (emit-IsReady tried (before id) _ ready) (lt-snoc tried.code _) in
        set_expression-IsReady _ id _ converted.0 converted.4)

pub visit_store_inst-IsReadySome :
    (layout : DataLayout) (s : Symbolizer) (id : ℕ) (addr v : Value)
    → IsReady s
    → IsReadySome (visit_store_inst layout s id addr v)
unfolding visit_store_inst
visit_store_inst-IsReadySome layout s id addr v h =
    IsReadySome-after (try_alternative layout s (before id) addr) _
      (try_alternative-IsReadySome layout s (before id) addr h)
      (λ tried ready. emit-IsReady _ (before id) _ (
        IsReadyOption-IsReady (length tried.code)
          (convert_expr_for_type_to_bit_vector_expr tried (before id) v)
          (convert_expr_for_type_to_bit_vector_expr-IsReadyOption tried (before id) v ready)))
