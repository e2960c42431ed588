-- ===== src/Compiler/Ready/Calls.antt =====
-- compiler/Symbolizer.cpp: calls keep the state ready.
use sym_cc_modified.Base.{
  ℕ, ◌+◌, Bool, true, false, Option, none, some, List, [], ◌∷◌, if◌then◌else◌, ◌>>=◌,
}
use sym_cc_modified.Compiler.Runtime.{SymFn, memcpy, memset, memmove}
use sym_cc_modified.Compiler.Ir.{
  Value, Emitted, call, concrete, Point, before, return_point, DataLayout,
}
use sym_cc_modified.Compiler.Symbolizer.{
  Symbolizer, Arg, symbolic, emit, get_symbolic_expression_or_null, try_alternative,
}
use sym_cc_modified.Compiler.Calls.{
  Intrinsic, memcpy_intrinsic, memset_intrinsic, memmove_intrinsic, expect, fabs, bswap, abs,
  ignored_intrinsic, with_overflow, saturating, fshl, fshr, try_alternatives, build_intrinsic,
  handle_intrinsic_call, Callee, intrinsic_callee, known_callee, inline_asm, called_operand,
  set_parameters, read_return_expression, call_function, handle_function_call,
}
use sym_cc_modified.Compiler.Ready.{IsReady}
use sym_cc_modified.Compiler.Ready.Steps.{emit-IsReady}
use sym_cc_modified.Compiler.Ready.Results.{
  build_and_register-IsReady, IsReadySome, IsReadySome-after,
}
use sym_cc_modified.Compiler.Ready.Visits.{try_alternative-IsReadySome, emitted_result-IsReady}
use sym_cc_modified.Compiler.Ready.Casts.{same_expression-IsReady}

try_alternatives-IsReadySome :
    (layout : DataLayout) (s : Symbolizer) (point : Point) (vs : List Value)
    → IsReady s
    → IsReadySome (try_alternatives layout s point vs)
unfolding try_alternatives
try_alternatives-IsReadySome layout s point [] h = h
try_alternatives-IsReadySome layout s point (v ∷ vs) h =
    IsReadySome-after (try_alternative layout s point v) _
      (try_alternative-IsReadySome layout s point v h)
      (λ tried ready. try_alternatives-IsReadySome layout tried point vs ready)

-- A call after the alternatives have been tried.
tried_call-IsReadySome :
    (layout : DataLayout) (s : Symbolizer) (point : Point) (vs : List Value)
    (emitted : Symbolizer → Emitted)
    → IsReady s
    → IsReadySome
        (try_alternatives layout s point vs >>= λ tried. some (emit tried point (emitted tried)).0)
tried_call-IsReadySome layout s point vs emitted h =
    IsReadySome-after (try_alternatives layout s point vs) _
      (try_alternatives-IsReadySome layout s point vs h)
      (λ tried ready. emit-IsReady tried point (emitted tried) ready)

build_intrinsic-IsReadySome :
    (s : Symbolizer) (id : ℕ) (function : SymFn) (v : Value) (args : List Arg)
    → IsReady s
    → IsReadySome (build_intrinsic s id function (symbolic v ∷ args))
unfolding build_intrinsic
build_intrinsic-IsReadySome s id function v args h =
    build_and_register-IsReady s (before id) function v args (some id) h

handle_intrinsic_call-IsReadySome :
    (layout : DataLayout) (s : Symbolizer) (id : ℕ) (intrinsic : Intrinsic) (arguments : List Value)
    → IsReady s
    → IsReadySome (handle_intrinsic_call layout s id intrinsic arguments)
unfolding handle_intrinsic_call
handle_intrinsic_call-IsReadySome layout s id memcpy_intrinsic (dest ∷ src ∷ size ∷ rest) h =
    tried_call-IsReadySome layout s (before id) (dest ∷ src ∷ size ∷ [])
      (λ tried. call memcpy (concrete dest ∷ concrete src ∷ concrete size ∷ [])) h
handle_intrinsic_call-IsReadySome layout s id memset_intrinsic (dest ∷ value ∷ size ∷ rest) h =
    tried_call-IsReadySome layout s (before id) (dest ∷ size ∷ [])
      (λ tried.
        call memset
          (concrete dest ∷ get_symbolic_expression_or_null tried value ∷ concrete size ∷ []))
      h
handle_intrinsic_call-IsReadySome layout s id memmove_intrinsic (dest ∷ src ∷ size ∷ rest) h =
    tried_call-IsReadySome layout s (before id) (dest ∷ src ∷ size ∷ [])
      (λ tried. call memmove (concrete dest ∷ concrete src ∷ concrete size ∷ [])) h
handle_intrinsic_call-IsReadySome layout s id expect (v ∷ rest) h = same_expression-IsReady s id v h
handle_intrinsic_call-IsReadySome layout s id fabs (v ∷ rest) h =
    build_intrinsic-IsReadySome s id _ v [] h
handle_intrinsic_call-IsReadySome layout s id bswap (v ∷ rest) h =
    build_intrinsic-IsReadySome s id _ v [] h
handle_intrinsic_call-IsReadySome layout s id abs (v ∷ rest) h =
    build_intrinsic-IsReadySome s id _ v [] h
handle_intrinsic_call-IsReadySome layout s id (with_overflow is_signed operation)
      (left ∷ right ∷ rest) h =
    build_intrinsic-IsReadySome s id _ left _ h
handle_intrinsic_call-IsReadySome layout s id (saturating operation) (left ∷ right ∷ rest) h =
    build_intrinsic-IsReadySome s id _ left _ h
handle_intrinsic_call-IsReadySome layout s id fshl (high ∷ low ∷ shift ∷ rest) h =
    build_intrinsic-IsReadySome s id _ high _ h
handle_intrinsic_call-IsReadySome layout s id fshr (high ∷ low ∷ shift ∷ rest) h =
    build_intrinsic-IsReadySome s id _ high _ h
handle_intrinsic_call-IsReadySome layout s id ignored_intrinsic arguments h = h
handle_intrinsic_call-IsReadySome layout s id intrinsic arguments h = tt

set_parameters-IsReady :
    (id : ℕ) (arguments : List Value) (s : Symbolizer) (i : ℕ)
    → IsReady s
    → IsReady (set_parameters s id i arguments)
unfolding set_parameters
set_parameters-IsReady id [] s i h = h
set_parameters-IsReady id (arg ∷ args) s i h =
    set_parameters-IsReady id args _ (i + 1) (emit-IsReady s (before id) _ h)

read_return_expression-IsReady :
    (s : Symbolizer) (id : ℕ) → IsReady s → IsReady (read_return_expression s id)
unfolding read_return_expression
read_return_expression-IsReady s id h =
    emitted_result-IsReady _ (return_point id) _ id (emit-IsReady s (before id) _ h)

used-IsReady :
    (is_used : Bool) (s : Symbolizer) (id : ℕ)
    → IsReady s
    → IsReady (if is_used then read_return_expression s id else s)
used-IsReady true s id h = read_return_expression-IsReady s id h
used-IsReady false s id h = h

call_function-IsReadySome :
    (layout : DataLayout) (s : Symbolizer) (id : ℕ) (operand : Option Value)
    (arguments : List Value) (is_used : Bool)
    → IsReady s
    → IsReadySome (call_function layout s id operand arguments is_used)
unfolding call_function
call_function-IsReadySome layout s id none arguments is_used h = used-IsReady is_used _ id (
    set_parameters-IsReady id arguments _ 0
      (emit-IsReady _ (before id) _ (emit-IsReady s (return_point id) _ h)))
call_function-IsReadySome layout s id (some callee) arguments is_used h =
    IsReadySome-after (try_alternative layout _ (before id) callee) _
      (try_alternative-IsReadySome layout _ (before id) callee
        (emit-IsReady _ (before id) _ (emit-IsReady s (return_point id) _ h)))
      (λ tried ready. used-IsReady is_used _ id (set_parameters-IsReady id arguments tried 0 ready))

pub handle_function_call-IsReadySome :
    (layout : DataLayout) (s : Symbolizer) (id : ℕ) (callee : Callee) (arguments : List Value)
    (is_used : Bool)
    → IsReady s
    → IsReadySome (handle_function_call layout s id callee arguments is_used)
unfolding handle_function_call
handle_function_call-IsReadySome layout s id (intrinsic_callee intrinsic) arguments is_used h =
    handle_intrinsic_call-IsReadySome layout s id intrinsic arguments h
handle_function_call-IsReadySome layout s id known_callee arguments is_used h =
    call_function-IsReadySome layout s id none arguments is_used h
handle_function_call-IsReadySome layout s id (called_operand callee) arguments is_used h =
    call_function-IsReadySome layout s id (some callee) arguments is_used h
handle_function_call-IsReadySome layout s id inline_asm arguments is_used h = h
