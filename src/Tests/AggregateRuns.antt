-- ===== src/Tests/AggregateRuns.antt =====
-- Runs over aggregates.
use sym_cc_modified.Base.{inr, refl, true, ◌++◌, arith, take, drop, ◌>>=◌}
use sym_cc_modified.Builder.Word.{word_builder, word_meaning}
use sym_cc_modified.Tests.Data.{word}
use sym_cc_modified.Bytes.Slices.{slice, bytes}
use sym_cc_modified.Aggregate.{build_extract, build_bswap, build_insert}
use sym_cc_modified.Aggregate.Extraction.{
  Yields, in_order, build_extract-Yields, build_bswap-Yields,
}
use sym_cc_modified.Aggregate.Insertion.{build_insert-Yields}
use sym_cc_modified.Aggregate.RoundTrip.{Restores, build_bswap_twice, build_extract-build_insert}

build_extract-Yields_example :
    Yields word_meaning
      (build_extract word_builder (word 32 16909060) 1 2 true)
      2
      (in_order true (slice 1 2 (bytes word_meaning (word 32 16909060))))
build_extract-Yields_example =
    build_extract-Yields word_meaning (word 32 16909060) 4 refl (omega arith) 1 2 true (omega arith)
      (omega arith)

build_bswap-Yields_example :
    Yields word_meaning
      (build_bswap word_builder (word 32 16909060))
      4
      (in_order true (bytes word_meaning (word 32 16909060)))
build_bswap-Yields_example =
    build_bswap-Yields word_meaning (word 32 16909060) 2 (omega arith) refl (omega arith)

build_insert-Yields_example :
    Yields word_meaning (build_insert word_builder (word 32 16909060) (word 16 2314) 1 true) 4 (
      take 1 (bytes word_meaning (word 32 16909060))
      ++ in_order true (bytes word_meaning (word 16 2314))
      ++ drop 3 (bytes word_meaning (word 32 16909060)))
build_insert-Yields_example =
    build_insert-Yields word_meaning (word 32 16909060) (word 16 2314) 4 2 1 true refl (omega arith)
      refl (omega arith) (omega arith) (λ h. inr refl)

build_bswap_twice_example :
    Restores word_meaning
      (build_bswap word_builder (word 32 16909060) >>= build_bswap word_builder)
      (word 32 16909060)
build_bswap_twice_example =
    build_bswap_twice word_meaning (word 32 16909060) 2 (omega arith) refl (omega arith)

build_extract-build_insert_example :
    Restores word_meaning
      (build_insert word_builder (word 32 16909060) (word 16 2314) 1 true >>= λ r.
        build_extract word_builder r 1 2 true)
      (word 16 2314)
build_extract-build_insert_example =
    build_extract-build_insert word_meaning (word 32 16909060) (word 16 2314) 4 2 1 true refl
      (omega arith) refl (omega arith) (omega arith) (λ h. inr refl)
