-- ===== src/Base/Words.antt =====
-- The arithmetic of `uint64_t`, `size_t` and `uintptr_t`, with its wrap-around, and of `uint8_t`.
use Prim.Native.Nat.{ℕ, ◌+◌, ◌-◌, ◌*◌, ◌%◌, ◌^◌}
use mathlib.Core.Option.{Option, none, some}
use sym_cc_modified.Base.Tests.{ltb, if◌then◌else◌}

abbrev pub word_size : ℕ
word_size = 2 ^ 64

-- The conversion to `uint8_t`.
abbrev pub u8 : ℕ → ℕ
u8 n = n % 256

abbrev pub add64 : ℕ → ℕ → ℕ
add64 a b = (a + b) % word_size

abbrev pub sub64 : ℕ → ℕ → ℕ
sub64 a b = (a + word_size - b) % word_size

abbrev pub mul64 : ℕ → ℕ → ℕ
mul64 a b = a * b % word_size

-- `value << count`. A shift by the width or more is undefined behaviour: `none`.
abbrev pub shl64 : ℕ → ℕ → Option ℕ
shl64 value count = if ltb count 64 then some (value * 2 ^ count % word_size) else none
