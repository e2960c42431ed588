-- ===== src/Aggregate.antt =====
-- runtime/RuntimeCommon.cpp: bytes taken out of an aggregate and put into one. An aggregate is one
-- bit vector whose most significant byte is the byte at offset 0.
-- `none` stands for an assertion that fails.
pub mod Extraction
pub mod Insertion
pub mod RoundTrip
use sym_cc_modified.Base.{
  ℕ, zero, suc, ◌+◌, ◌-◌, ◌*◌, ◌/◌, ◌%◌, ◌^◌, Bool, true, false, ◌&&◌, Option, none, some, ltb,
  ◌==◌, if◌then◌else◌, ◌>>=◌, add64, sub64, mul64, word_size,
}
use sym_cc_modified.Builder.{Builder}

module _ {E : Type 0} (b : Builder E) where
  -- The body of the loop of `_sym_build_extract`: byte `i` behind the offset.
  pub extract_byte : E → ℕ → ℕ → ℕ → E
  extract_byte expr total_bits offset i =
      b.extract_helper expr (sub64 (sub64 total_bits (mul64 (add64 offset i) 8)) 1)
        (sub64 total_bits (mul64 (add64 (add64 offset i) 1) 8))

  -- `for (i = 1; i < length; i++)`, with the rounds that are left.
  pub extract_bytes : E → ℕ → ℕ → ℕ → ℕ → E → E
  extract_bytes expr total_bits offset zero i result = result
  extract_bytes expr total_bits offset (suc rounds) i result =
      extract_bytes expr total_bits offset rounds (i + 1)
        (b.concat_helper (extract_byte expr total_bits offset i) result)

  pub extract_little : E → ℕ → ℕ → ℕ → E
  unfolding extract_bytes extract_byte
  extract_little expr total_bits offset length =
      extract_bytes expr total_bits offset (length - 1) 1 (
        b.extract_helper expr (sub64 (sub64 total_bits (mul64 offset 8)) 1)
          (sub64 (sub64 total_bits (mul64 offset 8)) 8))

  pub extract_big : E → ℕ → ℕ → ℕ → E
  extract_big expr total_bits offset length =
      b.extract_helper expr (sub64 (sub64 total_bits (mul64 offset 8)) 1)
        (sub64 total_bits (mul64 (add64 offset length) 8))

  pub build_extract : E → ℕ → ℕ → Bool → Option E
  unfolding extract_little extract_big
  build_extract expr offset length little_endian =
      let total_bits = b.bits_helper expr in
      if total_bits % 8 == 0
      then (if little_endian
          then some (extract_little expr total_bits offset length)
          else some (extract_big expr total_bits offset length))
      else none

  pub build_bswap : E → Option E
  build_bswap expr =
      let bits = b.bits_helper expr in
      if bits % 16 == 0 then build_extract expr 0 (bits / 8) true else none

  -- A piece that may be null, in front of another.
  pub append_piece : Option E → E → E
  append_piece none piece = piece
  append_piece (some result) piece = b.concat_helper result piece

  pub append_rest : E → Option E → E
  append_rest result none = result
  append_rest result (some rest) = b.concat_helper result rest

  -- A part of the target, or null where there is none.
  pub part_of : E → ℕ → ℕ → Option (Option E)
  part_of target offset length =
      if length == 0
      then some none
      else build_extract target offset length false >>= λ part. some (some part)

  pub new_piece : E → Bool → Option E
  new_piece to_insert little_endian =
      if little_endian && ltb 8 (b.bits_helper to_insert)
      then build_bswap to_insert
      else some to_insert

  pub build_insert : E → E → ℕ → Bool → Option E
  build_insert target to_insert offset little_endian =
      let bits_to_insert = b.bits_helper to_insert in
      let after_len = sub64 (sub64 (b.bits_helper target / 8) offset) (bits_to_insert / 8) in
      if bits_to_insert % 8 == 0
      then (do
        before_insert ← part_of target 0 offset
        piece ← new_piece to_insert little_endian
        after_insert ← part_of target (add64 offset (bits_to_insert / 8)) after_len
        some (append_rest (append_piece before_insert piece) after_insert))
      else none

  -- `for (i = 1; i < length; i++)`, with the rounds that are left.
  pub append_zeros : E → ℕ → E → E
  append_zeros zero_byte zero result = result
  append_zeros zero_byte (suc rounds) result =
      append_zeros zero_byte rounds (b.concat_helper result zero_byte)

  pub build_zero_bytes : ℕ → E
  unfolding append_zeros
  build_zero_bytes length =
      let zero_byte = b.build_integer 0 8 in append_zeros zero_byte (length - 1) zero_byte
