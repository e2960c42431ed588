-- ===== src/Config.antt =====
-- runtime/Config.h and runtime/Config.cpp: the configuration and how it is read from the
-- environment. A string is the list of its character codes; an exception is an error result.
pub mod Inputs
use sym_cc_modified.Base.{
  ℕ, zero, suc, ◌+◌, Bool, true, false, ◌&&◌, ◌||◌, Option, none, some, List, [], ◌∷◌, map, leb,
  ◌==◌, if◌then◌else◌,
}

abbrev pub Text : Type 0
Text = List ℕ

pub data InputConfig : Type 0 where
  no_input : InputConfig
  stdin_input : InputConfig
  memory_input : InputConfig
  file_input : Text → InputConfig

pub record Config : Type 0 where
  pub input : InputConfig
  pub output_dir : Text
  pub log_file : Text
  pub pruning : Bool
  pub afl_coverage_map : Text
  pub garbage_collection_threshold : ℕ

-- "/tmp/output"
abbrev pub default_output_dir : Text
default_output_dir = 47 ∷ 116 ∷ 109 ∷ 112 ∷ 47 ∷ 111 ∷ 117 ∷ 116 ∷ 112 ∷ 117 ∷ 116 ∷ []

abbrev pub default_config : Config
default_config = record {
  input = stdin_input;
  output_dir = default_output_dir;
  log_file = [];
  pruning = false;
  afl_coverage_map = [];
  garbage_collection_threshold = 5000000;
}

pub data ConfigError : Type 0 where
  unknown_flag_value : Text → ConfigError
  file_and_memory_input : ConfigError
  not_an_integer : Text → ConfigError
  threshold_out_of_range : ConfigError

pub data Result (A : Type 0) : Type 0 where
  ok : A → Result A
  error : ConfigError → Result A

abbrev pub and_then : {A B : Type 0} → Result A → (A → Result B) → Result B
and_then (ok a) f = f a
and_then (error e) f = error e

-- `std::tolower` of the C locale.
abbrev pub to_lower : ℕ → ℕ
to_lower c = if leb 65 c && leb c 90 then c + 32 else c

abbrev pub same_text : Text → Text → Bool
same_text [] [] = true
same_text [] (d ∷ ds) = false
same_text (c ∷ cs) [] = false
same_text (c ∷ cs) (d ∷ ds) = c == d && same_text cs ds

-- "1", "on", "yes" and "", "0", "off", "no"
abbrev pub is_yes : Text → Bool
is_yes value =
    same_text value (49 ∷ [])
    || same_text value (111 ∷ 110 ∷ [])
    || same_text value (121 ∷ 101 ∷ 115 ∷ [])

abbrev pub is_no : Text → Bool
is_no value =
    same_text value []
    || same_text value (48 ∷ [])
    || same_text value (111 ∷ 102 ∷ 102 ∷ [])
    || same_text value (110 ∷ 111 ∷ [])

unfoldable pub check_flag_string : Text → Result Bool
check_flag_string value =
    let lower = map to_lower value in
    if is_yes lower
    then ok true
    else if is_no lower
    then ok false
    else error (unknown_flag_value lower)

-- The variables of the environment that are read.
pub record Environment : Type 0 where
  pub symcc_output_dir : Option Text
  pub symcc_input_file : Option Text
  pub symcc_memory_input : Option Text
  pub symcc_no_symbolic_input : Option Text
  pub symcc_log_file : Option Text
  pub symcc_enable_linearization : Option Text
  pub symcc_afl_coverage_map : Option Text
  pub symcc_gc_threshold : Option Text

-- `getenv(...) != nullptr && checkFlagString(...)`
unfoldable pub flag : Option Text → Result Bool
flag none = ok false
flag (some value) = check_flag_string value

pub set_input_file : Option Text → Config → Config
set_input_file none config = config
set_input_file (some file) config = record config { input = file_input file }

pub set_memory_input : Bool → Config → Result Config
set_memory_input false config = ok config
set_memory_input true config = elim config.input [
  | file_input file ↦ error file_and_memory_input
  | _ ↦ ok (record config { input = memory_input })
]

pub set_no_input : Bool → Config → Config
set_no_input fully_concrete config =
    if fully_concrete then record config { input = no_input } else config

pub set_pruning : Option Text → Config → Result Config
set_pruning none config = ok config
set_pruning (some value) config =
    and_then (check_flag_string value) (λ pruning. ok (record config { pruning = pruning }))

abbrev pub or_else : Option Text → Text → Text
or_else none old = old
or_else (some value) old = value

-- What `std::stoul` gives or throws.
pub data Parsed : Type 0 where
  number : ℕ → Parsed
  invalid_argument : Parsed
  out_of_range : Parsed

pub set_threshold : (Text → Parsed) → Option Text → Config → Result Config
set_threshold stoul none config = ok config
set_threshold stoul (some value) config = elim (stoul value) [
  | number n ↦ ok (record config { garbage_collection_threshold = n })
  | invalid_argument ↦ error (not_an_integer value)
  | out_of_range ↦ error threshold_out_of_range
]

-- The variables that choose the input, in the order in which they are read.
pub load_input : Environment → Config → Result Config
load_input env config = and_then (flag env.symcc_memory_input) (λ memory.
    and_then (set_memory_input memory (set_input_file env.symcc_input_file config)) (λ chosen.
      and_then (flag env.symcc_no_symbolic_input)
        (λ fully_concrete. ok (set_no_input fully_concrete chosen))))

pub load_config : (Text → Parsed) → Environment → Config → Result Config
load_config stoul env config =
    and_then
      (load_input env
        (record config { output_dir = or_else env.symcc_output_dir config.output_dir }))
      (λ loaded.
        and_then
          (set_pruning env.symcc_enable_linearization
            (record loaded { log_file = or_else env.symcc_log_file loaded.log_file }))
          (λ pruned. set_threshold stoul env.symcc_gc_threshold (record pruned {
            afl_coverage_map = or_else env.symcc_afl_coverage_map pruned.afl_coverage_map;
          })))
