-- ===== src/Compiler/Total/Functions.antt =====
-- compiler/Symbolizer.cpp and compiler/Pass.cpp: the visitors of calls and of switches, and the
-- pass over a function of supported instructions, reach a state.
use sym_cc_modified.Base.{ℕ, ◌≡◌, refl, subst, Bool, true, some, List, [], ◌∷◌, arith}
use sym_cc_modified.Compiler.Runtime.{comparison_handlers}
use sym_cc_modified.Compiler.Ir.{Value, type_of, DataLayout, before, Operand}
use sym_cc_modified.Compiler.Values.{create_value_expression}
use sym_cc_modified.Compiler.Symbolizer.{Symbolizer, get_symbolic_expression, try_alternative}
use sym_cc_modified.Compiler.Visit.{
  binary_handler, visit_binary_operator, visit_cmp_inst, visit_indirect_br_inst, visit_load_inst,
  visit_store_inst,
}
use sym_cc_modified.Compiler.Members.{push_cases, visit_switch_inst}
use sym_cc_modified.Compiler.Calls.{
  Intrinsic, memcpy_intrinsic, memset_intrinsic, memmove_intrinsic, expect, fabs, bswap, abs,
  ignored_intrinsic, with_overflow, saturating, fshl, fshr, try_alternatives, build_intrinsic,
  handle_intrinsic_call, Callee, intrinsic_callee, known_callee, inline_asm, called_operand,
  call_function, handle_function_call,
}
use sym_cc_modified.Compiler.Pass.{
  Instruction, binary_operator, cmp_inst, indirect_br_inst, call_inst, load_inst, store_inst,
  bit_cast_inst, insert_value_inst, extract_value_inst, switch_inst, visit, visit_all, Function,
  visit_function,
}
use sym_cc_modified.Compiler.Ready.{IsReady}
use sym_cc_modified.Compiler.Ready.Results.{IsReadySome}
use sym_cc_modified.Compiler.Ready.Functions.{visit_function-IsReadySome}
use sym_cc_modified.Compiler.Support.{
  is_single, all_single, is_supported_intrinsic, is_supported_call, is_supported, all_supported,
}
use sym_cc_modified.Compiler.Total.{
  IsReached, IsReached-bind, IsReached-known, create_value_expression-IsReached,
  try_alternative-IsReached, and_true, try_alternatives-IsReached, binary_handler-IsReached,
  comparison_handlers-IsReached, visit_bit_cast_inst-IsReached, visit_insert_value_inst-IsReached,
  visit_extract_value_inst-IsReached,
}

push_cases-IsReached :
    (layout : DataLayout) (id : ℕ) (condition : Value) (expr : Operand) (cases : List Value)
    (s : Symbolizer)
    → all_single cases ≡ true
    → IsReached (push_cases layout s id condition expr cases)
unfolding push_cases all_single is_single comparison_handlers
push_cases-IsReached layout id condition expr [] s h = (s, refl)
push_cases-IsReached layout id condition expr (v ∷ vs) s h =
    let (this, rest) = and_true h in
    IsReached-bind (create_value_expression layout (type_of v) v) _
      (create_value_expression-IsReached layout (type_of v) v this)
      (λ code. push_cases-IsReached layout id condition expr vs _ rest)

handle_intrinsic_call-IsReached :
    (layout : DataLayout) (s : Symbolizer) (id : ℕ) (intrinsic : Intrinsic) (arguments : List Value)
    → is_supported_intrinsic intrinsic arguments ≡ true
    → IsReached (handle_intrinsic_call layout s id intrinsic arguments)
unfolding handle_intrinsic_call is_supported_intrinsic build_intrinsic
handle_intrinsic_call-IsReached layout s id memcpy_intrinsic (dest ∷ src ∷ size ∷ rest) h =
    IsReached-bind (try_alternatives layout s (before id) (dest ∷ src ∷ size ∷ [])) _
      (try_alternatives-IsReached layout (before id) (dest ∷ src ∷ size ∷ []) s h)
      (λ tried. (_, refl))
handle_intrinsic_call-IsReached layout s id memset_intrinsic (dest ∷ value ∷ size ∷ rest) h =
    IsReached-bind (try_alternatives layout s (before id) (dest ∷ size ∷ [])) _
      (try_alternatives-IsReached layout (before id) (dest ∷ size ∷ []) s h) (λ tried. (_, refl))
handle_intrinsic_call-IsReached layout s id memmove_intrinsic (dest ∷ src ∷ size ∷ rest) h =
    IsReached-bind (try_alternatives layout s (before id) (dest ∷ src ∷ size ∷ [])) _
      (try_alternatives-IsReached layout (before id) (dest ∷ src ∷ size ∷ []) s h)
      (λ tried. (_, refl))
handle_intrinsic_call-IsReached layout s id expect (v ∷ rest) h = (_, refl)
handle_intrinsic_call-IsReached layout s id fabs (v ∷ rest) h = (_, refl)
handle_intrinsic_call-IsReached layout s id bswap (v ∷ rest) h = (_, refl)
handle_intrinsic_call-IsReached layout s id abs (v ∷ rest) h = (_, refl)
handle_intrinsic_call-IsReached layout s id (with_overflow is_signed operation)
      (left ∷ right ∷ rest) h =
    (_, refl)
handle_intrinsic_call-IsReached layout s id (saturating operation) (left ∷ right ∷ rest) h =
    (_, refl)
handle_intrinsic_call-IsReached layout s id fshl (high ∷ low ∷ shift ∷ rest) h = (_, refl)
handle_intrinsic_call-IsReached layout s id fshr (high ∷ low ∷ shift ∷ rest) h = (_, refl)
handle_intrinsic_call-IsReached layout s id ignored_intrinsic arguments h = (s, refl)
handle_intrinsic_call-IsReached layout s id intrinsic arguments h = absurd (ground arith)

handle_function_call-IsReached :
    (layout : DataLayout) (s : Symbolizer) (id : ℕ) (callee : Callee) (arguments : List Value)
    (is_used : Bool)
    → is_supported_call callee arguments ≡ true
    → IsReached (handle_function_call layout s id callee arguments is_used)
unfolding handle_function_call is_supported_call call_function
handle_function_call-IsReached layout s id (intrinsic_callee intrinsic) arguments is_used h =
    handle_intrinsic_call-IsReached layout s id intrinsic arguments h
handle_function_call-IsReached layout s id known_callee arguments is_used h = (_, refl)
handle_function_call-IsReached layout s id (called_operand callee) arguments is_used h =
    IsReached-bind (try_alternative layout _ (before id) callee) _
      (try_alternative-IsReached layout _ (before id) callee h) (λ tried. (_, refl))
handle_function_call-IsReached layout s id inline_asm arguments is_used h = (s, refl)

-- `none` is not reached for a supported instruction, whatever the state.
pub visit-IsReached :
    (layout : DataLayout) (s : Symbolizer) (id : ℕ) (instruction : Instruction)
    → is_supported instruction ≡ true
    → IsReached (visit layout s id instruction)
unfolding visit is_supported visit_binary_operator visit_cmp_inst visit_indirect_br_inst
    visit_load_inst visit_store_inst visit_switch_inst
visit-IsReached layout s id (binary_operator opcode left right) h =
    IsReached-bind (binary_handler opcode (type_of left)) _
      (binary_handler-IsReached opcode (type_of left) h) (λ handler. (_, refl))
visit-IsReached layout s id (cmp_inst predicate left right) h =
    IsReached-bind (comparison_handlers predicate) _ (comparison_handlers-IsReached predicate h)
      (λ handler. (_, refl))
visit-IsReached layout s id (indirect_br_inst address) h =
    try_alternative-IsReached layout s (before id) address h
visit-IsReached layout s id (call_inst callee arguments is_used) h =
    handle_function_call-IsReached layout s id callee arguments is_used h
visit-IsReached layout s id (load_inst type addr) h =
    IsReached-bind (try_alternative layout s (before id) addr) _
      (try_alternative-IsReached layout s (before id) addr h) (λ tried. (_, refl))
visit-IsReached layout s id (store_inst addr v) h =
    IsReached-bind (try_alternative layout s (before id) addr) _
      (try_alternative-IsReached layout s (before id) addr h) (λ tried. (_, refl))
visit-IsReached layout s id (bit_cast_inst v dest) h = visit_bit_cast_inst-IsReached s id v dest h
visit-IsReached layout s id (insert_value_inst target inserted indices) h =
    visit_insert_value_inst-IsReached layout s id target inserted indices h
visit-IsReached layout s id (extract_value_inst target indices type) h =
    visit_extract_value_inst-IsReached layout s id target indices type h
visit-IsReached layout s id (switch_inst condition cases) h =
    IsReached-known s (get_symbolic_expression s condition) _
      (λ o. push_cases-IsReached layout id condition o cases s h)
visit-IsReached layout s id instruction h = (_, refl)

visit_all-IsReached :
    (layout : DataLayout) (instructions : List (ℕ × Instruction)) (s : Symbolizer)
    → all_supported instructions ≡ true
    → IsReached (visit_all layout s instructions)
unfolding visit_all all_supported
visit_all-IsReached layout [] s h = (s, refl)
visit_all-IsReached layout ((id, instruction) ∷ instructions) s h =
    let (this, rest) = and_true h in
    IsReached-bind (visit layout s id instruction) _ (visit-IsReached layout s id instruction this)
      (λ visited. visit_all-IsReached layout instructions visited rest)

-- For a function whose instructions are all supported (Boolean values only under and, or and xor;
-- no comparison that is always true or false; addresses, called operands, case values and the
-- operands that memory intrinsics are tried on integers, floating-point numbers or pointers; bit
-- casts between integers and floating-point numbers or between pointers; paths to members that
-- exist; the operands that an intrinsic has), the visits meet no assertion and no unreachable
-- code, and the state is ready: every recorded expression is null or the result of an inserted
-- instruction, and every recorded computation has at least one input, has its first and last
-- instruction in order among the inserted ones, and each of its inputs is an operand of a call
-- between the two and holds null or the result of an instruction inserted before that call.
pub visit_function-IsReady :
    (layout : DataLayout) (f : Function)
    → all_supported f.instructions ≡ true
    → (s : Symbolizer) × (visit_function layout f ≡ some s) × IsReady s
unfolding visit_function
visit_function-IsReady layout f h =
    let (s, reached) = visit_all-IsReached layout f.instructions _ h in
    (s, reached, subst IsReadySome reached (visit_function-IsReadySome layout f))
