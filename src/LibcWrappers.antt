-- ===== src/LibcWrappers.antt =====
-- runtime/LibcWrappers.cpp: the wrappers of the C library's functions that read and move through
-- the symbolic input. What the library's function returned is an argument, where `none` stands
-- for a failure; `memory` is the program's memory after the call.
pub mod Reading
pub mod Buffers
use sym_cc_modified.Base.{
  ℕ, ◌+◌, ◌-◌, Bool, true, false, Option, ◌>>=◌, ltb, none, some, List, [], ◌∷◌, ◌++◌, ◌==◌,
  if◌then◌else◌, add64, sub64, mul64,
}
use mathlib.Core.Option
use sym_cc_modified.Builder.{Builder}
use sym_cc_modified.Shadow.{Pages, write_begin}
use sym_cc_modified.Shadow.Ranges.{fill, generate}
use sym_cc_modified.Memory.{int_limit, write_range, make_symbolic}
use sym_cc_modified.Memory.Asserted.{checked_is_concrete}
use sym_cc_modified.Config.{Text, InputConfig, stdin_input, file_input}
use sym_cc_modified.FunctionCalls.{CallState, set_return_expression, get_parameter_expression}

-- `inputFileDescriptor`, where `none` is -1, `inputOffset`, the shadow, the globals for calls and
-- the path constraints that were pushed, newest first, each with whether it
-- was taken.
pub record LibcState (E : Type 0) : Type 0 where
  pub pages : Pages E
  pub calls : CallState E
  pub input_file_descriptor : Option ℕ
  pub input_offset : ℕ
  pub constraints : List (E × Bool)

-- Two descriptors, where `none` is -1.
unfoldable pub same_descriptor : Option ℕ → Option ℕ → Bool
same_descriptor none none = true
same_descriptor none (some fd) = false
same_descriptor (some fd) none = false
same_descriptor (some fd) (some other) = fd == other

module _ {E : Type 0} where
  unfoldable pub is_input : LibcState E → Option ℕ → Bool
  unfolding same_descriptor
  is_input state fildes = same_descriptor fildes state.input_file_descriptor

  pub set_return : LibcState E → Option E → LibcState E
  set_return state expr = record state { calls = set_return_expression state.calls expr }

  abbrev pub parameter : LibcState E → ℕ → Option E
  parameter state index = get_parameter_expression state.calls index

  -- `contains_text` is `strstr`.
  pub maybe_set_input_file :
      (Text → Text → Bool) → InputConfig → LibcState E → Text → ℕ → LibcState E
  maybe_set_input_file contains_text input state path fd = elim input [
    | file_input name ↦
        if contains_text path name
        then record state { input_file_descriptor = some fd; input_offset = 0 }
        else state
    | _ ↦ state
  ]

  pub init_libc_wrappers : InputConfig → LibcState E → LibcState E
  init_libc_wrappers input state = elim input [
    | stdin_input ↦ record state { input_file_descriptor = some 0 }
    | _ ↦ state
  ]

  -- `SYM(open)`, and `SYM(fopen)` with the descriptor of the stream.
  pub open_file : (Text → Text → Bool) → InputConfig → LibcState E → Text → Option ℕ → LibcState E
  unfolding set_return maybe_set_input_file
  open_file contains_text input state path none = set_return state none
  open_file contains_text input state path (some fd) =
      maybe_set_input_file contains_text input (set_return state none) path fd

module _ {E : Type 0} (b : Builder E) where
  -- The value has `bits` bits.
  pub try_alternative : LibcState E → ℕ → ℕ → Option E → LibcState E
  try_alternative state value bits none = state
  try_alternative state value bits (some expr) = record state {
    constraints = (b.build_equal expr (b.build_integer value bits), true) ∷ state.constraints;
  }

  pub malloc : LibcState E → ℕ → LibcState E
  unfolding try_alternative set_return
  malloc state size = set_return (try_alternative state size 64 (parameter state 0)) none

  pub calloc : LibcState E → ℕ → ℕ → LibcState E
  unfolding try_alternative set_return
  calloc state nmemb size =
      let first = try_alternative state nmemb 64 (parameter state 0) in
      set_return (try_alternative first size 64 (parameter state 1)) none

  pub lseek64 : LibcState E → Option ℕ → Bool → Option ℕ → LibcState E
  unfolding set_return is_input
  lseek64 state fd seek_set none = set_return state none
  lseek64 state fd seek_set (some result) =
      let returned =
        if seek_set
        then set_return (set_return state none) (parameter state 1)
        else set_return state none in
      if is_input state fd then record returned { input_offset = result } else returned

  pub rewind : LibcState E → Option ℕ → LibcState E
  unfolding set_return is_input
  rewind state fd =
      let returned = set_return state none in
      if is_input state fd then record returned { input_offset = 0 } else returned

  -- Also `SYM(fseeko)` and `SYM(fseeko64)`. `position` is what `ftell` gives after a seek that succeeded.
  pub fseek : LibcState E → ℕ → Option ℕ → Bool → Option ℕ → LibcState E
  unfolding try_alternative set_return is_input
  fseek state offset fd succeeded position =
      let returned = set_return (try_alternative state offset 64 (parameter state 1)) none in
      if succeeded
      then (if is_input state fd
          then (elim position [
            | none ↦ returned
            | some pos ↦ record returned { input_offset = pos }
          ])
          else returned)
      else returned

  pub ungetc : LibcState E → Option ℕ → Bool → LibcState E
  unfolding set_return is_input
  ungetc state fd succeeded =
      let returned = set_return state (parameter state 0) in
      if is_input state fd
      then (if succeeded
          then record returned { input_offset = sub64 returned.input_offset 1 }
          else returned)
      else returned

module _ {E : Type 0} (b : Builder E) (get_input_byte : ℕ → ℕ → Option E) (memory : ℕ → ℕ) where
  -- The shadow of a region that got concrete data. `none` stands for the assertion on the shadow.
  unfoldable pub concretize : LibcState E → ℕ → ℕ → Option (LibcState E)
  concretize state buf n = checked_is_concrete b state.pages buf n >>= λ concrete.
      if concrete
      then some state
      else let (pages, first) = write_range state.pages buf n in
        some (record state { pages = fill none n pages first })

  -- The data that arrived from the file in a buffer.
  unfoldable pub receive : LibcState E → Option ℕ → ℕ → ℕ → Option (LibcState E)
  unfolding is_input concretize
  receive state fildes buf n =
      if is_input state fildes
      then (make_symbolic get_input_byte memory state.pages buf n state.input_offset >>= λ pages.
          some (record state { pages = pages; input_offset = add64 state.input_offset n }))
      else concretize state buf n

  pub read : LibcState E → Option ℕ → ℕ → ℕ → Option ℕ → Option (LibcState E)
  unfolding set_return
  read state fildes buf nbyte result =
      let tried =
        try_alternative b (try_alternative b state buf 64 (parameter state 1)) nbyte 64
          (parameter state 2) in
      let returned = set_return tried none in
      elim result [ none ↦ some returned | some n ↦ receive returned fildes buf n ]

  pub fread : LibcState E → ℕ → ℕ → ℕ → Option ℕ → ℕ → Option (LibcState E)
  unfolding set_return
  fread state ptr size nmemb fd result =
      let first = try_alternative b state ptr 64 (parameter state 0) in
      let second = try_alternative b first size 64 (parameter state 1) in
      let third = try_alternative b second nmemb 64 (parameter state 2) in
      receive (set_return third none) fd ptr (mul64 result size)

  -- `length` is the length of the string in the buffer after the call.
  pub fgets : LibcState E → ℕ → ℕ → Option ℕ → ℕ → Option (LibcState E)
  unfolding set_return
  fgets state str n fd length =
      let first = try_alternative b state str 64 (parameter state 0) in
      let second = try_alternative b first n 32 (parameter state 1) in
      receive (set_return second (parameter state 0)) fd str length

  -- Also `SYM(fgetc)`.
  pub getc : LibcState E → Option ℕ → Option ℕ → LibcState E
  unfolding set_return is_input
  getc state fd none = set_return state none
  getc state fd (some result) =
      if is_input state fd
      then record (set_return state
          (Option.map (λ e. b.build_zext e 24) (get_input_byte state.input_offset result))) {
            input_offset = add64 state.input_offset 1;
          }
      else set_return state none

  -- The function that generates the shadow reads the offset after it was set.
  pub mmap64 : LibcState E → ℕ → Option ℕ → ℕ → Option ℕ → Option (LibcState E)
  unfolding set_return is_input concretize
  mmap64 state len fildes off none = some (set_return state none)
  mmap64 state len fildes off (some result) =
      let returned = set_return state none in
      let offset = add64 off len in
      let (pages, first) = write_range state.pages result len in
      let mapped =
        if is_input state fildes
        then (if ltb len int_limit
            then some (record returned {
              input_offset = offset;
              pages =
                  generate (λ i. get_input_byte offset (memory (add64 result i))) len 0 pages first;
            })
            else none)
        else concretize returned result len in
      mapped >>= λ done. some (try_alternative b done len 64 (parameter state 1))
