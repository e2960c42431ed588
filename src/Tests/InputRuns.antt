-- ===== src/Tests/InputRuns.antt =====
-- Runs of the wrappers of the C library.
use sym_cc_modified.Base.{
  ℕ, ◌+◌, ◌≡◌, refl, true, ◌&&◌, Option, none, some, [], arith, leb, ltb, if◌then◌else◌,
}
use sym_cc_modified.Builder.Word.{Word, word_builder}
use sym_cc_modified.Shadow.Pages.{shadow_at}
use sym_cc_modified.Shadow.Asserted.{IsByte}
use sym_cc_modified.LibcWrappers.{LibcState, is_input, read, mmap64}
use sym_cc_modified.LibcWrappers.Reading.{Received, read_lem, read_twice, mmap64_lem}
use sym_cc_modified.Tests.Data.{word, memory, two_pages, two_pages-HoldsBytes}

abbrev input_byte : ℕ → ℕ → Option Word
input_byte offset value = some (word 8 offset)

abbrev state : LibcState Word
state = record {
  pages = two_pages;
  calls = record { return_value = none; function_arguments = λ i. none };
  input_file_descriptor = some 3;
  input_offset = 10;
  constraints = [];
}

from_input : is_input state (some 3) ≡ true
unfolding is_input
from_input = refl

bytes : (i v : ℕ) → IsByte word_builder (input_byte i v)
bytes i v e h = ground arith

read_lem_example :
    (later : LibcState Word) × (read word_builder input_byte memory state (some 3) 4094 8 (some 4)
      ≡ some later)
    × Received word_builder input_byte memory state (some 3) 4094 4 later
read_lem_example =
    read_lem word_builder input_byte memory state (some 3) 4094 8 4 bytes two_pages-HoldsBytes
      (omega arith) (omega arith)

read_twice_example :
    (first : LibcState Word) × (twice : LibcState Word) × (once : LibcState Word) × (read
        word_builder input_byte memory state
        (some 3)
        4094
        8
        (some 4)
      ≡ some first)
    × (read word_builder input_byte memory first (some 3) (4094 + 4) 8 (some 2) ≡ some twice)
    × (read word_builder input_byte memory state (some 3) 4094 16 (some 6) ≡ some once)
    × ((c : ℕ) → shadow_at twice.pages c ≡ shadow_at once.pages c)
    × (twice.input_offset ≡ once.input_offset)
read_twice_example =
    read_twice word_builder input_byte memory state (some 3) 4094 8 4 8 2 16 bytes
      two_pages-HoldsBytes (omega arith) (omega arith)

mmap64_lem_example :
    (later : LibcState Word) × (mmap64 word_builder input_byte memory state 4 (some 3) 0 (some 8192)
      ≡ some later)
    × ((c : ℕ)
        → shadow_at later.pages c
          ≡ (if leb 8192 c && ltb c 8196 then some (word 8 4) else shadow_at two_pages c))
    × (later.input_offset ≡ 4)
mmap64_lem_example =
    mmap64_lem word_builder input_byte memory state 4 (some 3) 0 8192 from_input (omega arith)
      (omega arith)
