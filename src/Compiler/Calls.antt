-- ===== src/Compiler/Calls.antt =====
-- compiler/Symbolizer.cpp: calls of functions and of intrinsics.
use sym_cc_modified.Base.{
  ℕ, ◌+◌, ◌%◌, ◌^◌, Bool, Option, none, some, List, [], ◌∷◌, if◌then◌else◌, ◌>>=◌,
}
use sym_cc_modified.Compiler.Runtime.{
  SymFn, memcpy, memset, memmove, build_fp_abs, build_bswap, build_abs, build_add_overflow,
  build_sub_overflow, build_mul_overflow, build_sadd_sat, build_uadd_sat, build_ssub_sat,
  build_usub_sat, build_sshl_sat, build_ushl_sat, build_funnel_shift_left, build_funnel_shift_right,
  set_parameter_expression, set_return_expression, get_return_expression, notify_ret, notify_call,
}
use sym_cc_modified.Compiler.Ir.{
  Value, DataLayout, null_expression, result, concrete, number, site, call, Point, before,
  return_point,
}
use sym_cc_modified.Compiler.Symbolizer.{
  Symbolizer, Arg, symbolic, plain, emit, set_expression, get_symbolic_expression_or_null,
  build_and_register, try_alternative,
}
use sym_cc_modified.Compiler.Visit.{flag_operand}
use sym_cc_modified.Compiler.Casts.{same_expression}

pub data OverflowOperation : Type 0 where
  add_overflow sub_overflow mul_overflow : OverflowOperation

pub data SaturatingOperation : Type 0 where
  sadd uadd ssub usub sshl ushl : SaturatingOperation

-- The intrinsics by the cases of the handler; `ignored_intrinsic` has the cases that only break,
-- with or without a warning.
pub data Intrinsic : Type 0 where
  memcpy_intrinsic memset_intrinsic memmove_intrinsic expect fabs bswap abs : Intrinsic
  ignored_intrinsic : Intrinsic
  with_overflow : Bool → OverflowOperation → Intrinsic
  saturating : SaturatingOperation → Intrinsic
  fshl fshr : Intrinsic

pub overflow_function : OverflowOperation → SymFn
overflow_function add_overflow = build_add_overflow
overflow_function sub_overflow = build_sub_overflow
overflow_function mul_overflow = build_mul_overflow

pub saturating_function : SaturatingOperation → SymFn
saturating_function sadd = build_sadd_sat
saturating_function uadd = build_uadd_sat
saturating_function ssub = build_ssub_sat
saturating_function usub = build_usub_sat
saturating_function sshl = build_sshl_sat
saturating_function ushl = build_ushl_sat

unfoldable pub try_alternatives : DataLayout → Symbolizer → Point → List Value → Option Symbolizer
try_alternatives layout s point [] = some s
try_alternatives layout s point (v ∷ vs) =
    try_alternative layout s point v >>= λ tried. try_alternatives layout tried point vs

-- All the arguments are symbolic.
unfoldable pub build_intrinsic : Symbolizer → ℕ → SymFn → List Arg → Option Symbolizer
build_intrinsic s id function args = some (build_and_register s (before id) function args (some id))

-- The length of a memory operation is converted to the width of a pointer. `none` also stands for
-- a number of operands that the intrinsic does not have.
unfoldable pub handle_intrinsic_call :
    DataLayout → Symbolizer → ℕ → Intrinsic → List Value → Option Symbolizer
unfolding try_alternatives build_intrinsic overflow_function saturating_function
handle_intrinsic_call layout s id memcpy_intrinsic (dest ∷ src ∷ size ∷ rest) =
    try_alternatives layout s (before id) (dest ∷ src ∷ size ∷ []) >>= λ tried.
    some
      (emit tried (before id) (call memcpy (concrete dest ∷ concrete src ∷ concrete size ∷ []))).0
handle_intrinsic_call layout s id memset_intrinsic (dest ∷ value ∷ size ∷ rest) =
    try_alternatives layout s (before id) (dest ∷ size ∷ []) >>= λ tried.
    some
      (emit tried (before id) (
        call memset
          (concrete dest ∷ get_symbolic_expression_or_null tried value ∷ concrete size ∷ []))).0
handle_intrinsic_call layout s id memmove_intrinsic (dest ∷ src ∷ size ∷ rest) =
    try_alternatives layout s (before id) (dest ∷ src ∷ size ∷ []) >>= λ tried.
    some
      (emit tried (before id) (call memmove (concrete dest ∷ concrete src ∷ concrete size ∷ []))).0
handle_intrinsic_call layout s id expect (v ∷ rest) = some (same_expression s id v)
handle_intrinsic_call layout s id fabs (v ∷ rest) =
    build_intrinsic s id build_fp_abs (symbolic v ∷ [])
handle_intrinsic_call layout s id bswap (v ∷ rest) =
    build_intrinsic s id build_bswap (symbolic v ∷ [])
handle_intrinsic_call layout s id abs (v ∷ rest) = build_intrinsic s id build_abs (symbolic v ∷ [])
handle_intrinsic_call layout s id (with_overflow is_signed operation) (left ∷ right ∷ rest) =
    build_intrinsic s id (overflow_function operation) (
      symbolic left
      ∷ symbolic right
      ∷ plain (flag_operand is_signed)
      ∷ plain (flag_operand layout.is_little_endian)
      ∷ [])
handle_intrinsic_call layout s id (saturating operation) (left ∷ right ∷ rest) =
    build_intrinsic s id (saturating_function operation) (symbolic left ∷ symbolic right ∷ [])
handle_intrinsic_call layout s id fshl (high ∷ low ∷ shift ∷ rest) =
    build_intrinsic s id build_funnel_shift_left
      (symbolic high ∷ symbolic low ∷ symbolic shift ∷ [])
handle_intrinsic_call layout s id fshr (high ∷ low ∷ shift ∷ rest) =
    build_intrinsic s id build_funnel_shift_right
      (symbolic high ∷ symbolic low ∷ symbolic shift ∷ [])
handle_intrinsic_call layout s id ignored_intrinsic arguments = some s
handle_intrinsic_call layout s id intrinsic arguments = none

-- What is called: an intrinsic, another function that is known, an address, or inline assembly.
pub data Callee : Type 0 where
  intrinsic_callee : Intrinsic → Callee
  known_callee inline_asm : Callee
  called_operand : Value → Callee

-- The number of an argument is passed in 8 bits.
unfoldable pub set_parameters : Symbolizer → ℕ → ℕ → List Value → Symbolizer
set_parameters s id i [] = s
set_parameters s id i (arg ∷ args) =
    let (later, call_number) = emit s (before id) (
      call set_parameter_expression
        (number (i % 2 ^ 8) ∷ get_symbolic_expression_or_null s arg ∷ [])) in
    set_parameters later id (i + 1) args

-- Where the result is used, the return expression is reset before the call and read after it.
unfoldable pub read_return_expression : Symbolizer → ℕ → Symbolizer
read_return_expression s id =
    let (s₁, reset) = emit s (before id) (call set_return_expression (null_expression ∷ [])) in
    let (s₂, expr) = emit s₁ (return_point id) (call get_return_expression []) in
    set_expression s₂ id (some (result expr))

unfoldable pub call_function :
    DataLayout → Symbolizer → ℕ → Option Value → List Value → Bool → Option Symbolizer
unfolding set_parameters read_return_expression
call_function layout s id operand arguments is_used =
    let (s₁, ret) = emit s (return_point id) (call notify_ret (site id ∷ [])) in
    let (s₂, notified) = emit s₁ (before id) (call notify_call (site id ∷ [])) in
    let tried : Option Symbolizer = elim operand [
      | none ↦ some s₂
      | some callee ↦ try_alternative layout s₂ (before id) callee
    ] in
    tried >>= λ s₃.
    let passed = set_parameters s₃ id 0 arguments in
    some (if is_used then read_return_expression passed id else passed)

unfoldable pub handle_function_call :
    DataLayout → Symbolizer → ℕ → Callee → List Value → Bool → Option Symbolizer
unfolding handle_intrinsic_call call_function
handle_function_call layout s id (intrinsic_callee intrinsic) arguments is_used =
    handle_intrinsic_call layout s id intrinsic arguments
handle_function_call layout s id known_callee arguments is_used =
    call_function layout s id none arguments is_used
handle_function_call layout s id (called_operand callee) arguments is_used =
    call_function layout s id (some callee) arguments is_used
handle_function_call layout s id inline_asm arguments is_used = some s
