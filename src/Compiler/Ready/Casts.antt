-- ===== src/Compiler/Ready/Casts.antt =====
-- compiler/Symbolizer.cpp: the visitors of Compiler/Casts keep the state ready.
use sym_cc_modified.Base.{ℕ, inl, inr, ◌&&◌, none, some, List, [], ◌∷◌, length, ◌==◌, Bool-cases}
use sym_cc_modified.Compiler.Runtime.{
  SymFn, build_float_to_bits, build_bits_to_float, build_trunc, build_bit_to_bool,
  build_bool_to_bit, build_int_to_float, build_float_to_float, build_float_to_signed_integer,
  build_float_to_unsigned_integer,
}
use sym_cc_modified.Compiler.Ir.{Ty, Value, before, type_of}
use sym_cc_modified.Compiler.Symbolizer.{
  Symbolizer, Arg, symbolic, merge, empty_computation, get_symbolic_expression,
  force_build_runtime_call, is_concrete_argument, register_symbolic_computation,
}
use sym_cc_modified.Compiler.Visit.{is_floating, is_integer, is_bool, is_pointer, bit_width}
use sym_cc_modified.Compiler.Casts.{
  same_expression, CastOpcode, sext, zext, other_cast, cast_target, extend, visit_bit_cast_inst,
  visit_trunc_inst, visit_int_to_ptr_inst, visit_ptr_to_int_inst, visit_si_to_fp_inst,
  visit_ui_to_fp_inst, visit_fp_ext_inst, visit_fp_trunc_inst, visit_fp_to_si, visit_fp_to_ui,
  visit_cast_inst,
}
use sym_cc_modified.Compiler.Ready.{IsReady}
use sym_cc_modified.Compiler.Ready.Steps.{
  set_expression-IsReady, get_symbolic_expression-IsOptionalExpression,
  register_symbolic_computation-IsReady, force_build_runtime_call-IsReady,
  force_build_runtime_call-IsBounded, force_build_runtime_call-merge,
}
use sym_cc_modified.Compiler.Ready.Results.{
  build_and_register-IsReady, IsReadySome, IsBounded-IsReadyComputation,
}

pub same_expression-IsReady :
    (s : Symbolizer) (id : ℕ) (v : Value) → IsReady s → IsReady (same_expression s id v)
unfolding same_expression
same_expression-IsReady s id v h =
    set_expression-IsReady s id (get_symbolic_expression s v) h
      (get_symbolic_expression-IsOptionalExpression s v h)

pub visit_bit_cast_inst-IsReadySome :
    (s : Symbolizer) (id : ℕ) (v : Value) (dest : Ty)
    → IsReady s
    → IsReadySome (visit_bit_cast_inst s id v dest)
unfolding visit_bit_cast_inst
visit_bit_cast_inst-IsReadySome s id v dest h =
    elim (Bool-cases (is_integer (type_of v) && is_floating dest)) [
      | inl to_float ↦
          rw to_float (build_and_register-IsReady s (before id) build_bits_to_float v _ (some id) h)
      | inr p ↦ rw p (elim (Bool-cases (is_floating (type_of v) && is_integer dest)) [
        | inl to_int ↦
            rw to_int (build_and_register-IsReady s (before id) build_float_to_bits v [] none h)
        | inr q ↦ rw q (elim (Bool-cases (is_pointer (type_of v) && is_pointer dest)) [
          | inl pointers ↦ rw pointers (same_expression-IsReady s id v h)
          | inr r ↦ rw r tt
        ])
      ])
    ]

-- A computation that is made from one call, and is registered.
one_call-IsReady :
    (s : Symbolizer) (id : ℕ) (f : SymFn) (v : Value) (more : List Arg)
    → IsReady s
    → let (s₁, c) = force_build_runtime_call s (before id) f (symbolic v ∷ more) in
      IsReady (register_symbolic_computation s₁ c (some id))
unfolding force_build_runtime_call
one_call-IsReady s id f v more h =
    let (s₁, c) = force_build_runtime_call s (before id) f (symbolic v ∷ more) in
    register_symbolic_computation-IsReady s₁ c (some id)
      (force_build_runtime_call-IsReady s (before id) f (symbolic v ∷ more) h)
      (IsBounded-IsReadyComputation (length s.code) s₁.code c
        (force_build_runtime_call-IsBounded s (before id) f (symbolic v ∷ more) h) tt)

-- A computation that is made from a call and its successor, and is registered.
two_calls-IsReady :
    (s : Symbolizer) (id : ℕ) (f g : SymFn) (v : Value) (more rest : List Arg)
    → IsReady s
    → let (s₁, c) = force_build_runtime_call s (before id) f (symbolic v ∷ more) in
      let (s₂, d) = force_build_runtime_call s₁ (before id) g rest in
      IsReady (register_symbolic_computation s₂ (merge c d) (some id))
unfolding merge force_build_runtime_call
two_calls-IsReady s id f g v more rest h =
    let (s₁, c) = force_build_runtime_call s (before id) f (symbolic v ∷ more) in
    let ready = force_build_runtime_call-IsReady s (before id) f (symbolic v ∷ more) h in
    let bounded = force_build_runtime_call-IsBounded s (before id) f (symbolic v ∷ more) h in
    let (s₂, d) = force_build_runtime_call s₁ (before id) g rest in
    register_symbolic_computation-IsReady s₂ (merge c d) (some id)
      (force_build_runtime_call-IsReady s₁ (before id) g rest ready)
      (IsBounded-IsReadyComputation (length s.code) s₂.code (merge c d)
        (force_build_runtime_call-merge s₁ (before id) g rest (length s.code) c ready bounded) tt)

pub visit_trunc_inst-IsReady :
    (s : Symbolizer) (id : ℕ) (v : Value) (dest : Ty)
    → IsReady s
    → IsReady (visit_trunc_inst s id v dest)
unfolding visit_trunc_inst merge empty_computation
visit_trunc_inst-IsReady s id v dest h = elim (Bool-cases (is_concrete_argument s (symbolic v))) [
  | inl concrete ↦ rw concrete h
  | inr known ↦ rw known (elim (Bool-cases (is_bool dest)) [
    | inl bool ↦ rw bool (two_calls-IsReady s id build_trunc build_bit_to_bool v _ _ h)
    | inr other ↦ rw other (one_call-IsReady s id build_trunc v _ h)
  ])
]

pub visit_int_to_ptr_inst-IsReady :
    (s : Symbolizer) (id : ℕ) (v : Value) → IsReady s → IsReady (visit_int_to_ptr_inst s id v)
unfolding visit_int_to_ptr_inst
visit_int_to_ptr_inst-IsReady s id v h = same_expression-IsReady s id v h

pub visit_ptr_to_int_inst-IsReady :
    (s : Symbolizer) (id : ℕ) (v : Value) → IsReady s → IsReady (visit_ptr_to_int_inst s id v)
unfolding visit_ptr_to_int_inst
visit_ptr_to_int_inst-IsReady s id v h = same_expression-IsReady s id v h

pub visit_si_to_fp_inst-IsReady :
    (s : Symbolizer) (id : ℕ) (v : Value) (dest : Ty)
    → IsReady s
    → IsReady (visit_si_to_fp_inst s id v dest)
unfolding visit_si_to_fp_inst
visit_si_to_fp_inst-IsReady s id v dest h =
    build_and_register-IsReady s (before id) build_int_to_float v _ (some id) h

pub visit_ui_to_fp_inst-IsReady :
    (s : Symbolizer) (id : ℕ) (v : Value) (dest : Ty)
    → IsReady s
    → IsReady (visit_ui_to_fp_inst s id v dest)
unfolding visit_ui_to_fp_inst
visit_ui_to_fp_inst-IsReady s id v dest h =
    build_and_register-IsReady s (before id) build_int_to_float v _ (some id) h

pub visit_fp_ext_inst-IsReady :
    (s : Symbolizer) (id : ℕ) (v : Value) (dest : Ty)
    → IsReady s
    → IsReady (visit_fp_ext_inst s id v dest)
unfolding visit_fp_ext_inst
visit_fp_ext_inst-IsReady s id v dest h =
    build_and_register-IsReady s (before id) build_float_to_float v _ (some id) h

pub visit_fp_trunc_inst-IsReady :
    (s : Symbolizer) (id : ℕ) (v : Value) (dest : Ty)
    → IsReady s
    → IsReady (visit_fp_trunc_inst s id v dest)
unfolding visit_fp_trunc_inst
visit_fp_trunc_inst-IsReady s id v dest h =
    build_and_register-IsReady s (before id) build_float_to_float v _ (some id) h

pub visit_fp_to_si-IsReady :
    (s : Symbolizer) (id : ℕ) (v : Value) (dest : Ty)
    → IsReady s
    → IsReady (visit_fp_to_si s id v dest)
unfolding visit_fp_to_si
visit_fp_to_si-IsReady s id v dest h =
    build_and_register-IsReady s (before id) build_float_to_signed_integer v _ (some id) h

pub visit_fp_to_ui-IsReady :
    (s : Symbolizer) (id : ℕ) (v : Value) (dest : Ty)
    → IsReady s
    → IsReady (visit_fp_to_ui s id v dest)
unfolding visit_fp_to_ui
visit_fp_to_ui-IsReady s id v dest h =
    build_and_register-IsReady s (before id) build_float_to_unsigned_integer v _ (some id) h

extend-IsReady :
    (s : Symbolizer) (id : ℕ) (target : SymFn) (v : Value) (dest : Ty)
    → IsReady s
    → IsReady (extend s id target v dest)
unfolding extend merge empty_computation
extend-IsReady s id target v dest h = elim (Bool-cases (bit_width (type_of v) == 1)) [
  | inl bool ↦ rw bool (two_calls-IsReady s id build_bool_to_bit target v _ _ h)
  | inr wide ↦ rw wide (build_and_register-IsReady s (before id) target v _ (some id) h)
]

pub visit_cast_inst-IsReady :
    (s : Symbolizer) (id : ℕ) (opcode : CastOpcode) (v : Value) (dest : Ty)
    → IsReady s
    → IsReady (visit_cast_inst s id opcode v dest)
unfolding visit_cast_inst cast_target
visit_cast_inst-IsReady s id sext v dest h = extend-IsReady s id _ v dest h
visit_cast_inst-IsReady s id zext v dest h = extend-IsReady s id _ v dest h
visit_cast_inst-IsReady s id other_cast v dest h = h
