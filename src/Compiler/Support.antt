-- ===== src/Compiler/Support.antt =====
-- compiler/Symbolizer.cpp: the instructions whose visitors meet no assertion and no unreachable code.
use sym_cc_modified.Base.{ℕ, Bool, true, false, ◌&&◌, ◌||◌, not, none, some, List, [], ◌∷◌}
use sym_cc_modified.Compiler.Runtime.{BinaryOpcode, and, or, xor, Predicate, fcmp_true, fcmp_false}
use sym_cc_modified.Compiler.Ir.{
  Ty, int_type, float_type, double_type, pointer_type, struct_type, array_type, Value, type_of,
}
use sym_cc_modified.Compiler.Values.{field_type}
use sym_cc_modified.Compiler.Visit.{is_floating, is_integer, is_pointer, is_bool}
use sym_cc_modified.Compiler.Calls.{
  Intrinsic, memcpy_intrinsic, memset_intrinsic, memmove_intrinsic, expect, fabs, bswap, abs,
  ignored_intrinsic, with_overflow, saturating, fshl, fshr, Callee, intrinsic_callee, known_callee,
  inline_asm, called_operand,
}
use sym_cc_modified.Compiler.Pass.{
  Instruction, binary_operator, cmp_inst, indirect_br_inst, call_inst, load_inst, store_inst,
  bit_cast_inst, insert_value_inst, extract_value_inst, switch_inst,
}

-- Single values: integers, floating-point numbers and addresses.
unfoldable pub is_single : Value → Bool
is_single v = elim (type_of v) [
  | int_type bits ↦ true
  | float_type ↦ true
  | double_type ↦ true
  | pointer_type ↦ true
  | _ ↦ false
]

unfoldable pub all_single : List Value → Bool
unfolding is_single
all_single [] = true
all_single (v ∷ vs) = is_single v && all_single vs

unfoldable pub is_boolean_operator : BinaryOpcode → Bool
is_boolean_operator and = true
is_boolean_operator or = true
is_boolean_operator xor = true
is_boolean_operator opcode = false

unfoldable pub is_comparison : Predicate → Bool
is_comparison fcmp_true = false
is_comparison fcmp_false = false
is_comparison predicate = true

-- The indices lead to a member.
unfoldable pub has_member : Ty → List ℕ → Bool
has_member type [] = true
has_member (struct_type fields) (index ∷ indices) = elim (field_type fields index) [
  | none ↦ false
  | some type ↦ has_member type indices
]
has_member (array_type n type) (index ∷ indices) = has_member type indices
has_member type (index ∷ indices) = false

unfoldable pub is_supported_intrinsic : Intrinsic → List Value → Bool
unfolding all_single
is_supported_intrinsic memcpy_intrinsic (dest ∷ src ∷ size ∷ rest) =
    all_single (dest ∷ src ∷ size ∷ [])
is_supported_intrinsic memset_intrinsic (dest ∷ value ∷ size ∷ rest) = all_single (dest ∷ size ∷ [])
is_supported_intrinsic memmove_intrinsic (dest ∷ src ∷ size ∷ rest) =
    all_single (dest ∷ src ∷ size ∷ [])
is_supported_intrinsic expect (v ∷ rest) = true
is_supported_intrinsic fabs (v ∷ rest) = true
is_supported_intrinsic bswap (v ∷ rest) = true
is_supported_intrinsic abs (v ∷ rest) = true
is_supported_intrinsic (with_overflow is_signed operation) (left ∷ right ∷ rest) = true
is_supported_intrinsic (saturating operation) (left ∷ right ∷ rest) = true
is_supported_intrinsic fshl (high ∷ low ∷ shift ∷ rest) = true
is_supported_intrinsic fshr (high ∷ low ∷ shift ∷ rest) = true
is_supported_intrinsic ignored_intrinsic arguments = true
is_supported_intrinsic intrinsic arguments = false

unfoldable pub is_supported_call : Callee → List Value → Bool
unfolding is_supported_intrinsic is_single
is_supported_call (intrinsic_callee intrinsic) arguments =
    is_supported_intrinsic intrinsic arguments
is_supported_call known_callee arguments = true
is_supported_call inline_asm arguments = true
is_supported_call (called_operand callee) arguments = is_single callee

unfoldable pub is_supported_bit_cast : Ty → Ty → Bool
is_supported_bit_cast source dest =
    (is_integer source && is_floating dest)
    || (is_floating source && is_integer dest)
    || (is_pointer source && is_pointer dest)

unfoldable pub is_supported : Instruction → Bool
unfolding is_boolean_operator is_comparison is_single all_single is_supported_call
    is_supported_bit_cast has_member
is_supported (binary_operator opcode left right) =
    not (is_bool (type_of left)) || is_boolean_operator opcode
is_supported (cmp_inst predicate left right) = is_comparison predicate
is_supported (indirect_br_inst address) = is_single address
is_supported (call_inst callee arguments is_used) = is_supported_call callee arguments
is_supported (load_inst type addr) = is_single addr
is_supported (store_inst addr v) = is_single addr
is_supported (bit_cast_inst v dest) = is_supported_bit_cast (type_of v) dest
is_supported (insert_value_inst target inserted indices) = has_member (type_of target) indices
is_supported (extract_value_inst target indices type) = has_member (type_of target) indices
is_supported (switch_inst condition cases) = all_single cases
is_supported instruction = true

unfoldable pub all_supported : List (ℕ × Instruction) → Bool
unfolding is_supported
all_supported [] = true
all_supported ((id, instruction) ∷ instructions) =
    is_supported instruction && all_supported instructions
