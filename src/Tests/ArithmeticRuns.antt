-- ===== src/Tests/ArithmeticRuns.antt =====
-- Runs of the arithmetic.
use sym_cc_modified.Base.{◌≡◌, refl, none, some, arith}
use sym_cc_modified.Builder.Word.{Word, word_builder, word_meaning}
use sym_cc_modified.Tests.Data.{word}
use sym_cc_modified.Base.Int.{pos, negsuc}
use sym_cc_modified.Arithmetic.{
  build_sadd_sat, build_ssub_sat, build_uadd_sat, build_usub_sat, build_sshl_sat, build_ushl_sat,
  build_abs,
}
use sym_cc_modified.Arithmetic.Saturation.{Gives, build_sadd_sat-Gives, build_ssub_sat-Gives}
use sym_cc_modified.Arithmetic.Unsigned.{build_uadd_sat_lem, build_usub_sat_lem}
use sym_cc_modified.Arithmetic.Absolute.{saturation_undefined, build_abs_lem}

-- 100 + 100 in 8 bits is 127.
build_sadd_sat-Gives_example :
    Gives word_meaning 8
      (omega arith)
      (omega arith)
      (build_sadd_sat word_builder (word 8 100) (word 8 100))
      (pos 127)
unfolding word_meaning
build_sadd_sat-Gives_example =
    build_sadd_sat-Gives word_meaning 8 (omega arith) (omega arith) (word 8 100) (word 8 100) refl
      refl

-- -100 - 100 in 8 bits is -128.
build_ssub_sat-Gives_example :
    Gives word_meaning 8
      (omega arith)
      (omega arith)
      (build_ssub_sat word_builder (word 8 156) (word 8 100))
      (negsuc 127)
unfolding word_meaning
build_ssub_sat-Gives_example =
    build_ssub_sat-Gives word_meaning 8 (omega arith) (omega arith) (word 8 156) (word 8 100) refl
      refl

build_uadd_sat_lem_example :
    (r : Word) × (build_uadd_sat word_builder (word 8 200) (word 8 100) ≡ some r)
    × (word_builder.bits_helper r ≡ 8)
    × (word_meaning.value r ≡ 255)
unfolding word_meaning
build_uadd_sat_lem_example =
    build_uadd_sat_lem word_meaning (word 8 200) (word 8 100) 8 (omega arith) refl refl
      (omega arith)

build_usub_sat_lem_example :
    (word_builder.bits_helper (build_usub_sat word_builder (word 8 100) (word 8 200)) ≡ 8)
    × (word_meaning.value (build_usub_sat word_builder (word 8 100) (word 8 200)) ≡ 0)
unfolding word_meaning
build_usub_sat_lem_example =
    build_usub_sat_lem word_meaning (word 8 100) (word 8 200) 8 (omega arith) refl refl
      (omega arith)

build_abs_lem_example :
    (word_builder.bits_helper (build_abs word_builder (word 8 156)) ≡ 8)
    × (word_meaning.value (build_abs word_builder (word 8 156)) ≡ 100)
unfolding word_meaning
build_abs_lem_example = build_abs_lem word_meaning (word 8 156) 8 (omega arith) (omega arith) refl

saturation_undefined_example :
    (build_sadd_sat word_builder (word 64 1) (word 64 1) ≡ none)
    × (build_ssub_sat word_builder (word 64 1) (word 64 1) ≡ none)
    × (build_sshl_sat word_builder (word 64 1) (word 64 1) ≡ none)
    × (build_uadd_sat word_builder (word 64 1) (word 64 1) ≡ none)
    × (build_ushl_sat word_builder (word 64 1) (word 64 1) ≡ none)
saturation_undefined_example =
    saturation_undefined word_builder (word 64 1) (word 64 1) (omega arith) (omega arith)
