-- ===== src/Arithmetic.antt =====
-- runtime/RuntimeCommon.cpp: saturating arithmetic, arithmetic with overflow, funnel shifts and the
-- absolute value. `none` stands for an assertion that fails and for undefined behaviour. A width
-- that is handed over as `uint8_t` is taken modulo 256.
pub mod Widths
pub mod Saturation
pub mod Unsigned
pub mod Absolute
use sym_cc_modified.Base.{
  ℕ, ◌+◌, ◌-◌, ◌*◌, ◌/◌, ◌%◌, Bool, true, false, Option, none, some, ◌==◌, if◌then◌else◌, ◌>>=◌, u8,
  add64, sub64, mul64, shl64,
}
use sym_cc_modified.Builder.{Builder}
use sym_cc_modified.Aggregate.{build_bswap, build_zero_bytes}

module _ {E : Type 0} (b : Builder E) where
  -- For no bits the count of the shift is negative.
  pub build_min_signed_int : ℕ → Option E
  build_min_signed_int width =
      let bits = u8 width in
      if bits == 0 then none else shl64 1 (bits - 1) >>= λ value. some (b.build_integer value bits)

  pub build_max_signed_int : ℕ → Option E
  build_max_signed_int width =
      let bits = u8 width in
      shl64 1 bits >>= λ power. let mask = power - 1 in some (b.build_integer (mask / 2) bits)

  pub build_max_unsigned_int : ℕ → Option E
  build_max_unsigned_int width =
      let bits = u8 width in
      shl64 1 bits >>= λ power. let mask = power - 1 in some (b.build_integer mask bits)

  pub build_bit_to_bool : Option E → Option E
  build_bit_to_bool none = none
  build_bit_to_bool (some expr) =
      some (b.build_not_equal expr (b.build_integer 0 (u8 (b.bits_helper expr))))

  -- `_sym_build_bit_to_bool` of an expression that is not null.
  pub bit_to_bool : E → E
  bit_to_bool expr = b.build_not_equal expr (b.build_integer 0 (u8 (b.bits_helper expr)))

  -- The three-way choice that `_sym_build_sadd_sat` and `_sym_build_ssub_sat` end in.
  pub build_saturated : E → E → E → E → E
  build_saturated min max wide result =
      b.build_ite (b.build_signed_less_equal wide (b.build_sext min 1)) min
        (b.build_ite (b.build_signed_greater_equal wide (b.build_sext max 1)) max result)

  pub build_sadd_sat : E → E → Option E
  unfolding build_saturated
  build_sadd_sat x y = do
    min ← build_min_signed_int (b.bits_helper x)
    max ← build_max_signed_int (b.bits_helper x)
    let add_sext = b.build_add (b.build_sext x 1) (b.build_sext y 1)
    some (build_saturated min max add_sext (b.build_add x y))

  pub build_uadd_sat : E → E → Option E
  unfolding bit_to_bool
  build_uadd_sat x y = do
    let bits = b.bits_helper x
    max ← build_max_unsigned_int bits
    let add_zext = b.build_add (b.build_zext x 1) (b.build_zext y 1)
    some (b.build_ite (bit_to_bool (b.extract_helper add_zext bits bits)) max (b.build_add x y))

  pub build_ssub_sat : E → E → Option E
  unfolding build_saturated
  build_ssub_sat x y = do
    min ← build_min_signed_int (b.bits_helper x)
    max ← build_max_signed_int (b.bits_helper x)
    let sub_sext = b.build_sub (b.build_sext x 1) (b.build_sext y 1)
    some (build_saturated min max sub_sext (b.build_sub x y))

  pub build_usub_sat : E → E → E
  build_usub_sat x y =
      b.build_ite (b.build_unsigned_greater_equal x y) (b.build_sub x y)
        (b.build_integer 0 (u8 (b.bits_helper x)))

  pub build_shift_left_overflow : E → E → E
  build_shift_left_overflow x y =
      b.build_not_equal (b.build_arithmetic_shift_right (b.build_shift_left x y) y) x

  pub build_sshl_sat : E → E → Option E
  unfolding build_shift_left_overflow bit_to_bool
  build_sshl_sat x y = do
    let bits = b.bits_helper x
    min ← build_min_signed_int bits
    max ← build_max_signed_int bits
    some (
        b.build_ite (build_shift_left_overflow x y)
          (b.build_ite (bit_to_bool (b.extract_helper x (sub64 bits 1) (sub64 bits 1))) min max)
          (b.build_shift_left x y))

  pub build_ushl_sat : E → E → Option E
  unfolding build_shift_left_overflow
  build_ushl_sat x y = do
    max ← build_max_unsigned_int (b.bits_helper x)
    some (b.build_ite (build_shift_left_overflow x y) max (b.build_shift_left x y))

  pub build_funnel_shift_left : E → E → E → E
  build_funnel_shift_left x y c =
      let bits = b.bits_helper c in
      let shift = b.build_unsigned_rem c (b.build_integer bits (u8 bits)) in
      b.extract_helper (b.build_shift_left (b.concat_helper x y) shift) 0 bits

  pub build_funnel_shift_right : E → E → E → E
  build_funnel_shift_right x y c =
      let bits = b.bits_helper c in
      let shift = b.build_unsigned_rem c (b.build_integer bits (u8 bits)) in
      b.extract_helper (b.build_logical_shift_right (b.concat_helper x y) shift) 0 bits

  pub build_abs : E → E
  build_abs expr =
      let bits = u8 (b.bits_helper expr) in
      b.build_ite (b.build_signed_greater_equal expr (b.build_integer 0 bits)) expr
        (b.build_sub (b.build_integer 0 bits) expr)
