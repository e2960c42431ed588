-- ===== src/Overflow.antt =====
-- runtime/RuntimeCommon.cpp: arithmetic with overflow. The result describes the structure
-- `{iN, i1}` in memory. `none` stands for an assertion that fails.
pub mod Layout
pub mod Signed
use sym_cc_modified.Base.{
  ℕ, ◌/◌, ◌%◌, Bool, Option, none, some, ◌==◌, if◌then◌else◌, ◌>>=◌, u8, sub64, mul64,
}
use sym_cc_modified.Builder.{Builder}
use sym_cc_modified.Aggregate.{build_bswap, build_zero_bytes}

module _ {E : Type 0} (b : Builder E) where
  -- The overflow byte with the padding around it, behind the result.
  pub build_overflow_tail : E → ℕ → Bool → E
  build_overflow_tail overflow_byte result_bits little_endian =
      let padding = build_zero_bytes b (sub64 (result_bits / 8) 1) in
      if little_endian
      then b.concat_helper overflow_byte padding
      else b.concat_helper padding overflow_byte

  pub build_overflow_result : E → E → Bool → Option E
  unfolding build_overflow_tail
  build_overflow_result result_expr overflow little_endian =
      let result_bits = b.bits_helper result_expr in
      let overflow_byte = b.build_zext (b.build_bool_to_bit overflow) 7 in
      if result_bits % 8 == 0
      then (do
        result_expr_mem ← if little_endian then build_bswap b result_expr else some result_expr
        some (
            b.concat_helper result_expr_mem (
              if result_bits == 8
              then overflow_byte
              else build_overflow_tail overflow_byte result_bits little_endian)))
      else none

  pub add_overflow : E → E → Bool → E
  add_overflow x y is_signed =
      let bits = b.bits_helper x in
      if is_signed
      then b.build_not_equal (b.build_add (b.build_sext x 1) (b.build_sext y 1))
          (b.build_sext (b.build_add x y) 1)
      else b.build_equal
          (b.extract_helper (b.build_add (b.build_zext x 1) (b.build_zext y 1)) bits bits)
          b.build_true

  pub build_add_overflow : E → E → Bool → Bool → Option E
  unfolding add_overflow
  build_add_overflow x y is_signed little_endian =
      build_overflow_result (b.build_add x y) (add_overflow x y is_signed) little_endian

  pub sub_overflow : E → E → Bool → E
  sub_overflow x y is_signed =
      let bits = b.bits_helper x in
      if is_signed
      then b.build_not_equal (b.build_sub (b.build_sext x 1) (b.build_sext y 1))
          (b.build_sext (b.build_sub x y) 1)
      else b.build_equal
          (b.extract_helper (b.build_sub (b.build_zext x 1) (b.build_zext y 1)) bits bits)
          b.build_true

  pub build_sub_overflow : E → E → Bool → Bool → Option E
  unfolding sub_overflow
  build_sub_overflow x y is_signed little_endian =
      build_overflow_result (b.build_sub x y) (sub_overflow x y is_signed) little_endian

  pub mul_overflow : E → E → Bool → E
  mul_overflow x y is_signed =
      let bits = b.bits_helper x in
      if is_signed
      then b.build_not_equal (b.build_mul (b.build_sext x (u8 bits)) (b.build_sext y (u8 bits)))
          (b.build_sext (b.build_mul x y) (u8 bits))
      else b.build_equal
          (b.extract_helper (b.build_mul (b.build_zext x (u8 bits)) (b.build_zext y (u8 bits)))
            (sub64 (mul64 2 bits) 1) (sub64 (mul64 2 bits) 1))
          b.build_true

  pub build_mul_overflow : E → E → Bool → Bool → Option E
  unfolding mul_overflow
  build_mul_overflow x y is_signed little_endian =
      build_overflow_result (b.build_mul x y) (mul_overflow x y is_signed) little_endian
