-- ===== src/Tests/OverflowRuns.antt =====
-- Runs of arithmetic with overflow.
use sym_cc_modified.Base.{◌≡◌, refl, true, none, ◌++◌, arith}
use sym_cc_modified.Builder.Word.{word_builder, word_meaning}
use sym_cc_modified.Bytes.Slices.{bytes}
use sym_cc_modified.Aggregate.Extraction.{Yields, in_order}
use sym_cc_modified.Overflow.{build_overflow_result, build_add_overflow, build_sub_overflow}
use sym_cc_modified.Overflow.Layout.{flag_bytes, build_overflow_result-odd}
use sym_cc_modified.Overflow.Signed.{build_add_overflow-Yields, build_sub_overflow-Yields}
use sym_cc_modified.Tests.Data.{word}

build_overflow_result-odd_example :
    build_overflow_result word_builder (word 8 1) (word 1 0) true ≡ none
build_overflow_result-odd_example =
    build_overflow_result-odd word_builder (word 8 1) (word 1 0) (λ h. absurd (omega arith))

-- 32767 + 1 overflows, and -1 - 1 does not.
build_add_overflow-Yields_example :
    Yields word_meaning (build_add_overflow word_builder (word 16 32767) (word 16 1) true true) 4 (
      in_order true (bytes word_meaning (word_builder.build_add (word 16 32767) (word 16 1)))
      ++ flag_bytes true 2 1)
unfolding word_meaning
build_add_overflow-Yields_example =
    build_add_overflow-Yields word_meaning (word 16 32767) (word 16 1) 2 true (omega arith)
      (λ h. refl) (omega arith) refl refl

build_sub_overflow-Yields_example :
    Yields word_meaning (build_sub_overflow word_builder (word 16 65535) (word 16 1) true true) 4 (
      in_order true (bytes word_meaning (word_builder.build_sub (word 16 65535) (word 16 1)))
      ++ flag_bytes true 2 0)
unfolding word_meaning
build_sub_overflow-Yields_example =
    build_sub_overflow-Yields word_meaning (word 16 65535) (word 16 1) 2 true (omega arith)
      (λ h. refl) (omega arith) refl refl
