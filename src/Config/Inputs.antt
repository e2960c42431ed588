-- ===== src/Config/Inputs.antt =====
-- Which variables decide on the input.
use sym_cc_modified.Base.{ℕ, arith, [], ◌≡◌, ◌∙◌, refl, ap, Bool, true, false, Option, none, some}
use sym_cc_modified.Config.{
  Text, InputConfig, no_input, stdin_input, memory_input, file_input, Config, file_and_memory_input,
  ok, error, Environment, flag, set_input_file, set_memory_input, set_no_input, set_pruning,
  set_threshold, Parsed, load_input, load_config, or_else, default_config, default_output_dir,
  not_an_integer, threshold_out_of_range, number, invalid_argument, out_of_range,
}

-- The input that wins: none at all, then memory, then a file, then what was there.
abbrev pub chosen_input : Bool → Bool → Option Text → InputConfig → InputConfig
chosen_input true memory file old = no_input
chosen_input false true file old = memory_input
chosen_input false false (some file) old = file_input file
chosen_input false false none old = old

-- If an input file is named and the flag for memory input is on, the configuration is refused for
-- that reason, whatever the other variables say, the flag against symbolic input included.
pub load_config-conflict :
    (stoul : Text → Parsed) (env : Environment) (config : Config) (file : Text)
    → env.symcc_input_file ≡ some file
    → flag env.symcc_memory_input ≡ ok true
    → load_config stoul env config ≡ error file_and_memory_input
unfolding load_config load_input set_memory_input set_input_file
load_config-conflict stoul env config file p q = rw (p, q)

ok-injective : {A : Type 0} {a b : A} → ok a ≡ ok b → a ≡ b
ok-injective h = cc

set_pruning_lem :
    (value : Option Text) (config : Config) (pruning : Bool)
    → config.pruning ≡ false
    → flag value ≡ ok pruning
    → set_pruning value config ≡ ok (record config { pruning = pruning })
unfolding set_pruning flag
set_pruning_lem none config pruning p q =
    ap (λ (t : Bool). ok (record config { pruning = t })) (p ∙ ok-injective q)
set_pruning_lem (some value) config pruning p q = rw q

-- The threshold that the variable stands for, if it stands for one.
abbrev pub threshold_of : (Text → Parsed) → Option Text → ℕ → Option ℕ
threshold_of stoul none old = some old
threshold_of stoul (some value) old = elim (stoul value) [ number n ↦ some n | _ ↦ none ]

set_threshold_lem :
    (stoul : Text → Parsed) (value : Option Text) (config : Config) (n : ℕ)
    → threshold_of stoul value config.garbage_collection_threshold ≡ some n
    → set_threshold stoul value config ≡ ok (record config { garbage_collection_threshold = n })
unfolding set_threshold
set_threshold_lem stoul none config n h =
    let same : config.garbage_collection_threshold ≡ n = cc in
    ap (λ (t : ℕ). ok (record config { garbage_collection_threshold = t })) same
set_threshold_lem stoul (some value) config n h = read (stoul value) h
  where
    read :
        (parsed : Parsed)
        → elim parsed [ number n ↦ some n | _ ↦ none ] ≡ some n
        → elim parsed [
          | number n ↦ ok (record config { garbage_collection_threshold = n })
          | invalid_argument ↦ error (not_an_integer value)
          | out_of_range ↦ error threshold_out_of_range
        ]
          ≡ ok (record config { garbage_collection_threshold = n })
    read (number k) h =
        let same : k ≡ n = cc in
        ap (λ (t : ℕ). ok (record config { garbage_collection_threshold = t })) same
    read invalid_argument h = absurd (ground arith)
    read out_of_range h = absurd (ground arith)

loaded :
    (env : Environment) (memory fully_concrete : Bool) (file : Option Text)
    → flag env.symcc_memory_input ≡ ok memory
    → flag env.symcc_no_symbolic_input ≡ ok fully_concrete
    → env.symcc_input_file ≡ file
    → (memory ≡ true → file ≡ none)
    → load_input env
        (record default_config { output_dir = or_else env.symcc_output_dir default_output_dir })
      ≡ ok (record default_config {
        output_dir = or_else env.symcc_output_dir default_output_dir;
        input = chosen_input fully_concrete memory file stdin_input;
      })
unfolding load_input set_memory_input set_input_file set_no_input
loaded env true true none p q r apart = rw (p, q, r)
loaded env true false none p q r apart = rw (p, q, r)
loaded env true fully_concrete (some file) p q r apart = absurd (ground (arith, apart refl))
loaded env false true none p q r apart = rw (p, q, r)
loaded env false true (some file) p q r apart = rw (p, q, r)
loaded env false false none p q r apart = rw (p, q, r)
loaded env false false (some file) p q r apart = rw (p, q, r)

-- From the default configuration, if each flag has a known value or is missing, the threshold is
-- missing or parses, and memory and file input are not both asked for, the configuration is
-- loaded with no input where that is asked for, else memory input, else file input, else standard
-- input, and with each other field taken from its variable or kept; a variable that is set to the
-- empty string counts as set, also for the input file.
pub load_config_lem :
    (stoul : Text → Parsed) (env : Environment) (memory fully_concrete pruning : Bool) (n : ℕ)
    → flag env.symcc_memory_input ≡ ok memory
    → flag env.symcc_no_symbolic_input ≡ ok fully_concrete
    → flag env.symcc_enable_linearization ≡ ok pruning
    → threshold_of stoul env.symcc_gc_threshold 5000000 ≡ some n
    → (memory ≡ true → env.symcc_input_file ≡ none)
    → load_config stoul env default_config
      ≡ ok (record {
        input = chosen_input fully_concrete memory env.symcc_input_file stdin_input;
        output_dir = or_else env.symcc_output_dir default_output_dir;
        log_file = or_else env.symcc_log_file [];
        pruning = pruning;
        afl_coverage_map = or_else env.symcc_afl_coverage_map [];
        garbage_collection_threshold = n;
      })
unfolding load_config
load_config_lem stoul env memory fully_concrete pruning n p q r s apart =
    let before : Config = record default_config {
      output_dir = or_else env.symcc_output_dir default_output_dir;
      input = chosen_input fully_concrete memory env.symcc_input_file stdin_input;
      log_file = or_else env.symcc_log_file [];
    } in
    let behind : Config = record before {
      pruning = pruning;
      afl_coverage_map = or_else env.symcc_afl_coverage_map [];
    } in
    rw (
      loaded env memory fully_concrete env.symcc_input_file p q refl apart,
      set_pruning_lem env.symcc_enable_linearization before pruning refl r,
      set_threshold_lem stoul env.symcc_gc_threshold behind n s,
    )
