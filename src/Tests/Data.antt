-- ===== src/Tests/Data.antt =====
-- The inputs of the runs. The expressions are constants, so that each run can be evaluated.
use sym_cc_modified.Base.{ℕ, none, some, [], ◌∷◌, ◌==◌, if◌then◌else◌, arith}
use sym_cc_modified.Builder.Word.{Word, word_builder, word_meaning}
use sym_cc_modified.Shadow.{Pages, Region, find_page, load}
use sym_cc_modified.Shadow.Pages.{shadow_at}
use sym_cc_modified.Shadow.Asserted.{HoldsBytes}
use sym_cc_modified.Memory.Access.{IsByteShadow}

abbrev pub word : ℕ → ℕ → Word
word n v = record { bits = n; raw = v }

abbrev pub memory : ℕ → ℕ
memory address = address

-- The bytes at 4095 and at 4096, on two pages, are symbolic, and so is the byte at 5.
abbrev low_page : Region Word
low_page i = if i == 5 then some (word 8 200) else if i == 4095 then some (word 8 17) else none

abbrev high_page : Region Word
high_page i = if i == 0 then some (word 8 3) else none

abbrev pub two_pages : Pages Word
two_pages = (0, low_page) ∷ (4096, high_page) ∷ []

pub two_pages-IsByteShadow : IsByteShadow word_meaning memory two_pages
unfolding shadow_at load find_page
two_pages-IsByteShadow c e h = ground arith

pub two_pages-HoldsBytes : HoldsBytes word_builder two_pages
unfolding load find_page
two_pages-HoldsBytes q e h = ground arith
