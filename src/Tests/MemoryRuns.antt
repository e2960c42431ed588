-- ===== src/Tests/MemoryRuns.antt =====
-- Runs of the memory operations.
use sym_cc_modified.Base.{
  ℕ, Bool, add64, ◌+◌, ◌-◌, ◌*◌, ◌≡◌, ◌↔◌, inl, refl, true, ◌&&◌, Option, none, some, leb, ltb,
  if◌then◌else◌, arith,
}
use sym_cc_modified.Builder.Word.{Word, word_builder, word_meaning}
use sym_cc_modified.Tests.Data.{
  word, memory, two_pages, two_pages-IsByteShadow, two_pages-HoldsBytes,
}
use sym_cc_modified.Shadow.{Pages}
use sym_cc_modified.Shadow.Pages.{shadow_at}
use sym_cc_modified.Shadow.Ranges.Fill.{IsConcrete}
use sym_cc_modified.Shadow.Asserted.{HoldsBytes, IsByte}
use sym_cc_modified.Memory.{read_memory, write_memory, make_symbolic}
use sym_cc_modified.Memory.Moves.{Copied}
use sym_cc_modified.Memory.Asserted.{
  checked_is_concrete, checked_memcpy, checked_memset, checked_memmove, checked_is_concrete_lem,
  checked_memcpy-Copied, checked_memmove-Copied, checked_memset_view,
}
use sym_cc_modified.Memory.Access.{IsByteShadow, byte_values, read_memory_lem}
use sym_cc_modified.Memory.RoundTrip.{read_memory-write_memory}
use sym_cc_modified.Memory.Symbolic.{make_symbolic_view}
use sym_cc_modified.Aggregate.Extraction.{HasBytes, in_order}

checked_is_concrete_lem_example :
    (concrete : Bool) × (checked_is_concrete word_builder two_pages 4090 10 ≡ some concrete)
    × ((concrete ≡ true) ↔ IsConcrete two_pages 4090 10)
checked_is_concrete_lem_example =
    checked_is_concrete_lem word_builder two_pages 4090 10 two_pages-HoldsBytes (omega arith)

-- A move by one byte upwards, over the border of a page.
checked_memmove-Copied_example :
    (later : Pages Word) × (checked_memmove word_builder two_pages 4096 4095 2 ≡ some later)
    × Copied two_pages later 4096 4095 2
    × HoldsBytes word_builder later
checked_memmove-Copied_example =
    checked_memmove-Copied word_builder two_pages 4096 4095 2 two_pages-HoldsBytes (omega arith)
      (omega arith)

checked_memcpy-Copied_example :
    (later : Pages Word) × (checked_memcpy word_builder two_pages 4094 4095 2 ≡ some later)
    × Copied two_pages later 4094 4095 2
    × HoldsBytes word_builder later
checked_memcpy-Copied_example =
    checked_memcpy-Copied word_builder two_pages 4094 4095 2 two_pages-HoldsBytes (omega arith)
      (omega arith) (inl (omega arith))

checked_memset_view_example :
    (later : Pages Word) × (checked_memset word_builder two_pages 4095 none 2 ≡ some later)
    × ((c : ℕ)
        → shadow_at later c ≡ (if leb 4095 c && ltb c 4097 then none else shadow_at two_pages c))
    × (IsByte word_builder none → HoldsBytes word_builder later)
checked_memset_view_example =
    checked_memset_view word_builder two_pages 4095 none 2 two_pages-HoldsBytes (omega arith)

read_memory_lem_example :
    (IsConcrete two_pages 4095 2
      → read_memory word_builder memory two_pages 4095 2 true ≡ some none)
    × (¬ IsConcrete two_pages 4095 2
        → (r : Word) × (read_memory word_builder memory two_pages 4095 2 true ≡ some (some r))
          × HasBytes word_meaning r 2
              (in_order true (byte_values word_meaning memory two_pages 4095 2)))
read_memory_lem_example =
    read_memory_lem word_meaning memory two_pages 4095 2 true (omega arith) (omega arith)
      two_pages-IsByteShadow

read_memory-write_memory_example :
    (later : Pages Word) × (write_memory word_builder two_pages 4095 2 (some (word 16 515)) true
      ≡ some later)
    × IsByteShadow word_meaning memory later
    × ((r : Word) × (read_memory word_builder memory later 4095 2 true ≡ some (some r))
        × (word_builder.bits_helper r ≡ 16)
        × (word_meaning.value r ≡ 515))
unfolding word_meaning
read_memory-write_memory_example =
    read_memory-write_memory word_meaning memory two_pages 4095 2 (word 16 515) true (omega arith)
      (omega arith) refl (omega arith) two_pages-IsByteShadow

-- The expressions of this backend are the offset of the input byte and its value.
abbrev input_byte : ℕ → ℕ → Option Word
input_byte offset value = some (word 8 (offset * 16 + value))

make_symbolic_view_example :
    (later : Pages Word) × (make_symbolic input_byte (λ a. 7) two_pages 4094 3 2 ≡ some later)
    × ((c : ℕ)
        → shadow_at later c ≡ (
            if leb 4094 c && ltb c 4097
            then input_byte (add64 2 (c - 4094)) 7
            else shadow_at two_pages c))
    × (((i v : ℕ) → IsByte word_builder (input_byte i v))
        → HoldsBytes word_builder two_pages
        → HoldsBytes word_builder later)
make_symbolic_view_example =
    make_symbolic_view word_builder input_byte (λ a. 7) two_pages 4094 3 2 (omega arith)
      (omega arith)
