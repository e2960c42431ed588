-- ===== src/Compiler/Total.antt =====
-- compiler/Symbolizer.cpp: the visitors of supported instructions reach a state.
pub mod Functions
pub mod Pass
use sym_cc_modified.Base.{
  ℕ, zero, suc, ◌+◌, ◌≡◌, inl, inr, refl, subst, Bool, true, false, ◌&&◌, ◌||◌, not, Option, none,
  some, List, [], ◌∷◌, ◌==◌, leb, if◌then◌else◌, ◌>>=◌, Bool-cases, Option-cases, arith,
}
use sym_cc_modified.Compiler.Runtime.{
  build_bits_to_float, build_float_to_bits, build_bool_and, build_bool_or, build_bool_xor,
  binary_operator_handlers, BinaryOpcode, add, sub, mul, udiv, sdiv, urem, srem, shl, lshr, ashr,
  and, or, xor, fadd, fsub, fmul, fdiv, frem, Predicate, fcmp_true, fcmp_false, icmp_eq,
  comparison_handlers,
}
use sym_cc_modified.Compiler.Ir.{
  Ty, int_type, float_type, double_type, pointer_type, void_type, struct_type, array_type, Types,
  Value, type_of, DataLayout, ValueCode, Point, before, Operand,
}
use sym_cc_modified.Compiler.Values.{
  create_value_expression, field_type, member_of, aggregate_member_offset_from,
  aggregate_member_offset, is_null_pointer,
}
use sym_cc_modified.Compiler.Symbolizer.{
  Symbolizer, build_and_register, plain, symbolic, get_symbolic_expression, is_concrete_argument,
  try_alternative,
}
use sym_cc_modified.Compiler.Visit.{
  flag_operand, is_double, is_floating, is_integer, is_pointer, is_bool, binary_handler,
  visit_binary_operator, visit_cmp_inst, visit_indirect_br_inst, visit_load_inst, visit_store_inst,
}
use sym_cc_modified.Compiler.Casts.{same_expression, visit_bit_cast_inst}
use sym_cc_modified.Compiler.Members.{
  visit_insert_value_inst, visit_extract_value_inst, push_cases, visit_switch_inst,
}
use sym_cc_modified.Compiler.Calls.{
  Intrinsic, memcpy_intrinsic, memset_intrinsic, memmove_intrinsic, expect, fabs, bswap, abs,
  ignored_intrinsic, with_overflow, saturating, fshl, fshr, try_alternatives, build_intrinsic,
  handle_intrinsic_call, Callee, intrinsic_callee, known_callee, inline_asm, called_operand,
  call_function, handle_function_call,
}
use sym_cc_modified.Compiler.Pass.{
  Instruction, binary_operator, unary_operator, select_inst, cmp_inst, return_inst, branch_inst,
  indirect_br_inst, call_inst, load_inst, store_inst, get_element_ptr_inst, bit_cast_inst,
  trunc_inst, si_to_fp_inst, ui_to_fp_inst, fp_ext_inst, fp_trunc_inst, fp_to_si, fp_to_ui,
  int_to_ptr_inst, ptr_to_int_inst, cast_inst, phi_node, insert_value_inst, extract_value_inst,
  switch_inst, no_effect, visit, visit_all, Function, visit_function,
}
use sym_cc_modified.Compiler.Ready.{IsReady}
use sym_cc_modified.Compiler.Ready.Results.{IsReadySome}
use sym_cc_modified.Compiler.Ready.Functions.{visit_function-IsReadySome}
use sym_cc_modified.Compiler.Support.{
  is_single, all_single, is_boolean_operator, is_comparison, has_member, is_supported_intrinsic,
  is_supported_call, is_supported_bit_cast, is_supported, all_supported,
}

-- A state is reached.
abbrev pub IsReached : {A : Type 0} → Option A → Type 0
IsReached {A = A} found = (a : A) × (found ≡ some a)

pub IsReached-bind :
    {A : Type 0} {B : Type 0} (found : Option A) (next : A → Option B)
    → IsReached found
    → ((a : A) → IsReached (next a))
    → IsReached (found >>= next)
IsReached-bind found next (a, p) h = rw p (h a)

pub IsReached-known :
    (s : Symbolizer) (expr : Option Operand) (next : Operand → Option Symbolizer)
    → ((o : Operand) → IsReached (next o))
    → IsReached (elim expr [ none ↦ some s | some o ↦ next o ])
IsReached-known s none next h = (s, refl)
IsReached-known s (some o) next h = h o

pub IsReached-if :
    {A : Type 0} (b : Bool) (x y : Option A)
    → IsReached x
    → IsReached y
    → IsReached (if b then x else y)
IsReached-if true x y p q = p
IsReached-if false x y p q = q

pub create_value_expression-IsReached :
    (layout : DataLayout) (type : Ty) (v : Value)
    → (elim type [
      | int_type bits ↦ true
      | float_type ↦ true
      | double_type ↦ true
      | pointer_type ↦ true
      | _ ↦ false
    ])
      ≡ true
    → IsReached (create_value_expression layout type v)
unfolding create_value_expression
create_value_expression-IsReached layout (int_type bits) v h =
    IsReached-if (bits == 1) _ _ (_, refl) (IsReached-if (leb bits 64) _ _ (_, refl) (_, refl))
create_value_expression-IsReached layout float_type v h = (_, refl)
create_value_expression-IsReached layout double_type v h = (_, refl)
create_value_expression-IsReached layout pointer_type v h =
    IsReached-if (is_null_pointer v) _ _ (_, refl) (_, refl)
create_value_expression-IsReached layout type v h = absurd (ground arith)

pub try_alternative-IsReached :
    (layout : DataLayout) (s : Symbolizer) (point : Point) (v : Value)
    → is_single v ≡ true
    → IsReached (try_alternative layout s point v)
unfolding try_alternative is_single
try_alternative-IsReached layout s point v h =
    IsReached-known s (get_symbolic_expression s v) _ (λ o.
      IsReached-bind (create_value_expression layout (type_of v) v) _
        (create_value_expression-IsReached layout (type_of v) v h) (λ code. (_, refl)))

pub and_true : {a b : Bool} → a && b ≡ true → (a ≡ true) × (b ≡ true)
and_true {a = true} {b = b} h = (refl, h)
and_true {a = false} {b = b} h = absurd (ground arith)

pub try_alternatives-IsReached :
    (layout : DataLayout) (point : Point) (vs : List Value) (s : Symbolizer)
    → all_single vs ≡ true
    → IsReached (try_alternatives layout s point vs)
unfolding try_alternatives all_single
try_alternatives-IsReached layout point [] s h = (s, refl)
try_alternatives-IsReached layout point (v ∷ vs) s h =
    let (this, rest) = and_true h in
    IsReached-bind (try_alternative layout s point v) _
      (try_alternative-IsReached layout s point v this)
      (λ tried. try_alternatives-IsReached layout point vs tried rest)

pub boolean_handler-IsReached :
    (opcode : BinaryOpcode) (type : Ty)
    → is_bool type ≡ true
    → is_boolean_operator opcode ≡ true
    → IsReached (binary_handler opcode type)
unfolding binary_handler is_boolean_operator
boolean_handler-IsReached and type bool h = (build_bool_and, rw bool refl)
boolean_handler-IsReached or type bool h = (build_bool_or, rw bool refl)
boolean_handler-IsReached xor type bool h = (build_bool_xor, rw bool refl)
boolean_handler-IsReached opcode type bool h = absurd (ground arith)

pub binary_handler-IsReached :
    (opcode : BinaryOpcode) (type : Ty)
    → not (is_bool type) || is_boolean_operator opcode ≡ true
    → IsReached (binary_handler opcode type)
unfolding binary_handler
binary_handler-IsReached opcode type h = elim (Bool-cases (is_bool type)) [
  | inl bool ↦
      boolean_handler-IsReached opcode type bool
        (subst (λ b. not b || is_boolean_operator opcode ≡ true) bool h)
  | inr other ↦ (binary_operator_handlers opcode, rw other refl)
]

pub comparison_handlers-IsReached :
    (predicate : Predicate)
    → is_comparison predicate ≡ true
    → IsReached (comparison_handlers predicate)
unfolding comparison_handlers is_comparison
comparison_handlers-IsReached fcmp_true h = absurd (ground arith)
comparison_handlers-IsReached fcmp_false h = absurd (ground arith)
comparison_handlers-IsReached predicate h = (_, refl)

pub one_of_three :
    {A : Type 0} (a b c : Bool) (x y z : A)
    → a || b || c ≡ true
    → IsReached (if a then some x else if b then some y else if c then some z else none)
one_of_three true b c x y z h = (x, refl)
one_of_three false true c x y z h = (y, refl)
one_of_three false false true x y z h = (z, refl)
one_of_three false false false x y z h = absurd (ground arith)

pub visit_bit_cast_inst-IsReached :
    (s : Symbolizer) (id : ℕ) (v : Value) (dest : Ty)
    → is_supported_bit_cast (type_of v) dest ≡ true
    → IsReached (visit_bit_cast_inst s id v dest)
unfolding visit_bit_cast_inst is_supported_bit_cast
visit_bit_cast_inst-IsReached s id v dest h =
    one_of_three (is_integer (type_of v) && is_floating dest)
      (is_floating (type_of v) && is_integer dest) (is_pointer (type_of v) && is_pointer dest)
      (build_and_register s (before id) build_bits_to_float
        (symbolic v ∷ plain (flag_operand (is_double dest)) ∷ []) (some id))
      (build_and_register s (before id) build_float_to_bits (symbolic v ∷ []) none)
      (same_expression s id v) h

pub aggregate_member_offset_from-IsReached :
    (layout : DataLayout) (indices : List ℕ) (type : Ty) (offset : ℕ)
    → has_member type indices ≡ true
    → IsReached (aggregate_member_offset_from layout type indices offset)
unfolding aggregate_member_offset_from has_member member_of
aggregate_member_offset_from-IsReached layout [] type offset h = (_, refl)
aggregate_member_offset_from-IsReached layout (index ∷ indices) (struct_type fields) offset h =
    elim (Option-cases (field_type fields index)) [
      | inl missing ↦
          let wrong =
            subst (λ o. (elim o [ none ↦ false | some type ↦ has_member type indices ]) ≡ true)
              missing h in
          absurd (ground arith)
      | inr (type, found) ↦ rw found (
          aggregate_member_offset_from-IsReached layout indices type _ (
            subst (λ o. (elim o [ none ↦ false | some type ↦ has_member type indices ]) ≡ true)
              found h))
    ]
aggregate_member_offset_from-IsReached layout (index ∷ indices) (array_type n type) offset h =
    aggregate_member_offset_from-IsReached layout indices type _ h
aggregate_member_offset_from-IsReached layout (index ∷ indices) type offset h =
    absurd (ground arith)

pub aggregate_member_offset-IsReached :
    (layout : DataLayout) (type : Ty) (indices : List ℕ)
    → has_member type indices ≡ true
    → IsReached (aggregate_member_offset layout type indices)
unfolding aggregate_member_offset
aggregate_member_offset-IsReached layout type indices h =
    aggregate_member_offset_from-IsReached layout indices type 0 h

pub visit_insert_value_inst-IsReached :
    (layout : DataLayout) (s : Symbolizer) (id : ℕ) (target inserted : Value) (indices : List ℕ)
    → has_member (type_of target) indices ≡ true
    → IsReached (visit_insert_value_inst layout s id target inserted indices)
unfolding visit_insert_value_inst
visit_insert_value_inst-IsReached layout s id target inserted indices h =
    IsReached-if
      (is_concrete_argument s (symbolic target) && is_concrete_argument s (symbolic inserted)) _ _
      (s, refl)
      (IsReached-bind (aggregate_member_offset layout (type_of target) indices) _
        (aggregate_member_offset-IsReached layout (type_of target) indices h) (λ member. (_, refl)))

pub visit_extract_value_inst-IsReached :
    (layout : DataLayout) (s : Symbolizer) (id : ℕ) (target : Value) (indices : List ℕ) (type : Ty)
    → has_member (type_of target) indices ≡ true
    → IsReached (visit_extract_value_inst layout s id target indices type)
unfolding visit_extract_value_inst
visit_extract_value_inst-IsReached layout s id target indices type h =
    IsReached-known s (get_symbolic_expression s target) _ (λ o.
      IsReached-bind (aggregate_member_offset layout (type_of target) indices) _
        (aggregate_member_offset-IsReached layout (type_of target) indices h) (λ member. (_, refl)))
