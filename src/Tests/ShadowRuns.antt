-- ===== src/Tests/ShadowRuns.antt =====
-- Runs over the shadow.
use sym_cc_modified.Base.{ℕ, ◌≡◌, ◌≢◌, refl, some, arith, ◌<◌}
use sym_cc_modified.Tests.Data.{word, two_pages}
use sym_cc_modified.Shadow.{WriteIterator, find_page, load, is_present, read_begin, write_next}
use sym_cc_modified.Shadow.Pages.{shadow_at, pointer_of, IsValid, Extends, write_next-IsValid}
use sym_cc_modified.Shadow.Ranges.Ends.{walk, walk-end}

shadow_at_test : shadow_at two_pages 4095 ≡ some (word 8 17)
unfolding shadow_at load find_page
shadow_at_test = refl

-- The iterator at a byte of the first page.
abbrev at_byte : ℕ → WriteIterator
at_byte a = record { address = a; shadow = pointer_of a }

at_byte-IsValid : IsValid two_pages (at_byte 4095) 4095
unfolding is_present find_page
at_byte-IsValid = record { at = refl; points = refl; there = refl }

at_next-IsValid : IsValid two_pages (at_byte 4096) 4096
unfolding is_present find_page
at_next-IsValid = record { at = refl; points = refl; there = refl }

write_next-IsValid_example :
    IsValid (write_next two_pages (at_byte 4095)).0 (write_next two_pages (at_byte 4095)).1 4096
    × Extends two_pages (write_next two_pages (at_byte 4095)).0
write_next-IsValid_example =
    write_next-IsValid two_pages (at_byte 4095) 4095 (omega arith) at_byte-IsValid

walk-end_example :
    ((walk two_pages 3 (read_begin two_pages 4095)).address ≡ (read_begin two_pages 4098).address)
    × ((i : ℕ)
        → i < 3
        → (walk two_pages i (read_begin two_pages 4095)).address
          ≢ (read_begin two_pages 4098).address)
walk-end_example = walk-end two_pages 4095 3 (omega arith) (omega arith)
