-- ===== src/Compiler/Runtime.antt =====
-- compiler/Runtime.h and compiler/Runtime.cpp: the functions of the run-time library that
-- instrumented code calls, and the tables that choose one for an instruction.
use sym_cc_modified.Base.{Option, none, some}

-- The members of `Runtime`; those of the three tables stand under the names that they import.
pub data SymFn : Type 0 where
  build_integer build_integer128 build_float build_null_pointer build_true build_false : SymFn
  build_bool build_sext build_zext build_trunc build_bswap : SymFn
  build_int_to_float build_float_to_float build_bits_to_float build_float_to_bits : SymFn
  build_float_to_signed_integer build_float_to_unsigned_integer build_fp_abs : SymFn
  build_bool_and build_bool_or build_bool_xor build_bool_to_bit build_bit_to_bool : SymFn
  concat_helper push_path_constraint : SymFn
  build_add_overflow build_sub_overflow build_mul_overflow : SymFn
  build_sadd_sat build_uadd_sat build_ssub_sat build_usub_sat build_sshl_sat build_ushl_sat : SymFn
  build_funnel_shift_left build_funnel_shift_right build_abs : SymFn
  set_parameter_expression get_parameter_expression : SymFn
  set_return_expression get_return_expression : SymFn
  build_add build_sub build_mul build_unsigned_div build_signed_div : SymFn
  build_unsigned_rem build_signed_rem : SymFn
  build_shift_left build_logical_shift_right build_arithmetic_shift_right : SymFn
  build_and build_or build_xor : SymFn
  build_fp_add build_fp_sub build_fp_mul build_fp_div build_fp_rem build_fp_neg : SymFn
  build_equal build_not_equal : SymFn
  build_unsigned_greater_than build_unsigned_greater_equal : SymFn
  build_unsigned_less_than build_unsigned_less_equal : SymFn
  build_signed_greater_than build_signed_greater_equal : SymFn
  build_signed_less_than build_signed_less_equal : SymFn
  build_float_ordered_greater_than build_float_ordered_greater_equal : SymFn
  build_float_ordered_less_than build_float_ordered_less_equal : SymFn
  build_float_ordered_equal build_float_ordered_not_equal build_float_ordered : SymFn
  build_float_unordered build_float_unordered_greater_than : SymFn
  build_float_unordered_greater_equal build_float_unordered_less_than : SymFn
  build_float_unordered_less_equal build_float_unordered_equal : SymFn
  build_float_unordered_not_equal : SymFn
  memcpy memset memmove read_memory write_memory : SymFn
  build_zero_bytes build_insert build_extract : SymFn
  notify_call notify_ret notify_basic_block : SymFn

-- LLVM's binary operators, and the predicates of its comparisons.
pub data BinaryOpcode : Type 0 where
  add sub mul udiv sdiv urem srem shl lshr ashr and or xor fadd fsub fmul fdiv frem : BinaryOpcode

pub data Predicate : Type 0 where
  icmp_eq icmp_ne icmp_ugt icmp_uge icmp_ult icmp_ule icmp_sgt icmp_sge icmp_slt icmp_sle :
      Predicate
  fcmp_ogt fcmp_oge fcmp_olt fcmp_ole fcmp_oeq fcmp_one fcmp_ord fcmp_uno : Predicate
  fcmp_ugt fcmp_uge fcmp_ult fcmp_ule fcmp_ueq fcmp_une fcmp_true fcmp_false : Predicate

unfoldable pub binary_operator_handlers : BinaryOpcode → SymFn
binary_operator_handlers add = build_add
binary_operator_handlers sub = build_sub
binary_operator_handlers mul = build_mul
binary_operator_handlers udiv = build_unsigned_div
binary_operator_handlers sdiv = build_signed_div
binary_operator_handlers urem = build_unsigned_rem
binary_operator_handlers srem = build_signed_rem
binary_operator_handlers shl = build_shift_left
binary_operator_handlers lshr = build_logical_shift_right
binary_operator_handlers ashr = build_arithmetic_shift_right
binary_operator_handlers and = build_and
binary_operator_handlers or = build_or
binary_operator_handlers xor = build_xor
binary_operator_handlers fadd = build_fp_add
binary_operator_handlers fsub = build_fp_sub
binary_operator_handlers fmul = build_fp_mul
binary_operator_handlers fdiv = build_fp_div
binary_operator_handlers frem = build_fp_rem

-- The entries for the two predicates that are always the same are null.
unfoldable pub comparison_handlers : Predicate → Option SymFn
comparison_handlers icmp_eq = some build_equal
comparison_handlers icmp_ne = some build_not_equal
comparison_handlers icmp_ugt = some build_unsigned_greater_than
comparison_handlers icmp_uge = some build_unsigned_greater_equal
comparison_handlers icmp_ult = some build_unsigned_less_than
comparison_handlers icmp_ule = some build_unsigned_less_equal
comparison_handlers icmp_sgt = some build_signed_greater_than
comparison_handlers icmp_sge = some build_signed_greater_equal
comparison_handlers icmp_slt = some build_signed_less_than
comparison_handlers icmp_sle = some build_signed_less_equal
comparison_handlers fcmp_ogt = some build_float_ordered_greater_than
comparison_handlers fcmp_oge = some build_float_ordered_greater_equal
comparison_handlers fcmp_olt = some build_float_ordered_less_than
comparison_handlers fcmp_ole = some build_float_ordered_less_equal
comparison_handlers fcmp_oeq = some build_float_ordered_equal
comparison_handlers fcmp_one = some build_float_ordered_not_equal
comparison_handlers fcmp_ord = some build_float_ordered
comparison_handlers fcmp_uno = some build_float_unordered
comparison_handlers fcmp_ugt = some build_float_unordered_greater_than
comparison_handlers fcmp_uge = some build_float_unordered_greater_equal
comparison_handlers fcmp_ult = some build_float_unordered_less_than
comparison_handlers fcmp_ule = some build_float_unordered_less_equal
comparison_handlers fcmp_ueq = some build_float_unordered_equal
comparison_handlers fcmp_une = some build_float_unordered_not_equal
comparison_handlers fcmp_true = none
comparison_handlers fcmp_false = none
