-- ===== src/Tests/SystemRuns.antt =====
-- Runs of the configuration, the garbage collection and the hand-over of parameters.
use sym_cc_modified.Base.{
  ℕ, ◌≡◌, ◌↔◌, ◌⊎◌, ◌≤◌, refl, true, false, Option, none, some, [], ◌∷◌, length, arith, ◌==◌,
  if◌then◌else◌,
}
use sym_cc_modified.Shadow.{Pages}
use sym_cc_modified.Shadow.Pages.{shadow_at}
use sym_cc_modified.GarbageCollection.{
  contains, ExpressionRegion, collect_reachable_expressions, collect_garbage,
}
use sym_cc_modified.GarbageCollection.Reachability.{
  InRegions, InPages, collect_reachable_expressions_iff, collect_garbage_lem,
}
use sym_cc_modified.Config.{
  Text, file_input, file_and_memory_input, ok, error, Environment, flag, Parsed, number,
  load_config, check_flag_string, default_config,
}
use sym_cc_modified.Config.Inputs.{load_config-conflict, load_config_lem}

abbrev region : ExpressionRegion
region = record { first = 10; length = 2 }

abbrev slots : ℕ → Option ℕ
slots i = if i == 11 then some 7 else none

abbrev page : Pages ℕ
page = (0, (λ i. if i == 3 then some 9 else none)) ∷ []

collect_reachable_expressions_iff_example :
    (contains (collect_reachable_expressions slots (region ∷ []) page) 9 ≡ true)
    ↔ (InRegions slots (region ∷ []) 9 ⊎ InPages page 9)
collect_reachable_expressions_iff_example =
    collect_reachable_expressions_iff slots (region ∷ []) page 9

collect_garbage_lem_example :
    (contains (collect_garbage 2 slots (region ∷ []) page (7 ∷ 8 ∷ 9 ∷ [])) 9 ≡ true
      → contains (7 ∷ 8 ∷ 9 ∷ []) 9 ≡ true)
    × (contains (7 ∷ 8 ∷ 9 ∷ []) 9 ≡ true
        → InRegions slots (region ∷ []) 9 ⊎ ((a : ℕ) × (shadow_at page a ≡ some 9))
        → contains (collect_garbage 2 slots (region ∷ []) page (7 ∷ 8 ∷ 9 ∷ [])) 9 ≡ true)
    × (2 ≤ 3
        → contains (collect_garbage 2 slots (region ∷ []) page (7 ∷ 8 ∷ 9 ∷ [])) 9 ≡ true
        → InRegions slots (region ∷ []) 9 ⊎ InPages page 9)
collect_garbage_lem_example = collect_garbage_lem 2 slots (region ∷ []) page (7 ∷ 8 ∷ 9 ∷ []) 9

abbrev stoul : Text → Parsed
stoul value = number (length value)

abbrev yes : Option Text
yes = some (121 ∷ 101 ∷ 115 ∷ [])

abbrev environment : Option Text → Option Text → Environment
environment file memory = record {
  symcc_output_dir = some (46 ∷ []);
  symcc_input_file = file;
  symcc_memory_input = memory;
  symcc_no_symbolic_input = none;
  symcc_log_file = none;
  symcc_enable_linearization = yes;
  symcc_afl_coverage_map = none;
  symcc_gc_threshold = some (49 ∷ []);
}

yes-flag : flag yes ≡ ok true
unfolding flag check_flag_string
yes-flag = refl

none-flag : flag none ≡ ok false
unfolding flag
none-flag = refl

load_config-conflict_example :
    load_config stoul (environment (some (97 ∷ [])) yes) default_config
    ≡ error file_and_memory_input
load_config-conflict_example =
    load_config-conflict stoul (environment (some (97 ∷ [])) yes) default_config (97 ∷ []) refl
      yes-flag

load_config_lem_example :
    load_config stoul (environment (some (97 ∷ [])) none) default_config
    ≡ ok (record {
      input = file_input (97 ∷ []);
      output_dir = 46 ∷ [];
      log_file = [];
      pruning = true;
      afl_coverage_map = [];
      garbage_collection_threshold = 1;
    })
load_config_lem_example =
    load_config_lem stoul (environment (some (97 ∷ [])) none) false false true 1 none-flag none-flag
      yes-flag refl (λ h. absurd (ground arith))
