-- ===== src/Compiler/Casts.antt =====
-- compiler/Symbolizer.cpp: the visitors of casts, and of the instructions that compute an address
-- or take a member of an aggregate.
use sym_cc_modified.Base.{
  ℕ, ◌%◌, ◌^◌, Bool, true, false, ◌&&◌, Option, none, some, List, [], ◌∷◌, ◌==◌, if◌then◌else◌, u8,
  sub64,
}
use sym_cc_modified.Compiler.Runtime.{
  SymFn, build_float_to_bits, build_bits_to_float, build_trunc, build_bit_to_bool,
  build_bool_to_bit, build_zext, build_sext, build_int_to_float, build_float_to_float,
  build_float_to_signed_integer, build_float_to_unsigned_integer, build_mul, build_add,
}
use sym_cc_modified.Compiler.Ir.{
  Ty, Types, Value, constant_int, DataLayout, number, before, type_of,
}
use sym_cc_modified.Compiler.Symbolizer.{
  Symbolizer, SymbolicComputation, Arg, symbolic, plain, merge, empty_computation, set_expression,
  get_symbolic_expression, is_concrete_argument, force_build_runtime_call, build_and_register,
  register_symbolic_computation,
}
use sym_cc_modified.Compiler.Visit.{
  is_floating, is_double, is_integer, is_bool, is_pointer, bit_width, flag_operand, last_operand,
}

-- The result has the expression of the operand, if that has one.
unfoldable pub same_expression : Symbolizer → ℕ → Value → Symbolizer
same_expression s id v = set_expression s id (get_symbolic_expression s v)

unfoldable pub visit_bit_cast_inst : Symbolizer → ℕ → Value → Ty → Option Symbolizer
unfolding same_expression
visit_bit_cast_inst s id v dest =
    if is_integer (type_of v) && is_floating dest
    then some (
        build_and_register s (before id) build_bits_to_float
          (symbolic v ∷ plain (flag_operand (is_double dest)) ∷ []) (some id))
    else if is_floating (type_of v) && is_integer dest
    then some (build_and_register s (before id) build_float_to_bits (symbolic v ∷ []) none)
    else if is_pointer (type_of v) && is_pointer dest
    then some (same_expression s id v)
    else none

unfoldable pub visit_trunc_inst : Symbolizer → ℕ → Value → Ty → Symbolizer
visit_trunc_inst s id v dest =
    if is_concrete_argument s (symbolic v)
    then s
    else let (s₁, truncated) =
        force_build_runtime_call s (before id) build_trunc
          (symbolic v ∷ plain (number (u8 (bit_width dest))) ∷ []) in
      let computation = merge empty_computation truncated in
      if is_bool dest
      then (let (s₂, bit) =
            force_build_runtime_call s₁ (before id) build_bit_to_bool
              (plain (last_operand computation) ∷ []) in
          register_symbolic_computation s₂ (merge computation bit) (some id))
      else register_symbolic_computation s₁ computation (some id)

unfoldable pub visit_int_to_ptr_inst : Symbolizer → ℕ → Value → Symbolizer
unfolding same_expression
visit_int_to_ptr_inst s id v = same_expression s id v

unfoldable pub visit_ptr_to_int_inst : Symbolizer → ℕ → Value → Symbolizer
unfolding same_expression
visit_ptr_to_int_inst s id v = same_expression s id v

unfoldable pub visit_si_to_fp_inst : Symbolizer → ℕ → Value → Ty → Symbolizer
visit_si_to_fp_inst s id v dest =
    build_and_register s (before id) build_int_to_float
      (symbolic v ∷ plain (flag_operand (is_double dest)) ∷ plain (number 1) ∷ []) (some id)

unfoldable pub visit_ui_to_fp_inst : Symbolizer → ℕ → Value → Ty → Symbolizer
visit_ui_to_fp_inst s id v dest =
    build_and_register s (before id) build_int_to_float
      (symbolic v ∷ plain (flag_operand (is_double dest)) ∷ plain (number 0) ∷ []) (some id)

unfoldable pub visit_fp_ext_inst : Symbolizer → ℕ → Value → Ty → Symbolizer
visit_fp_ext_inst s id v dest =
    build_and_register s (before id) build_float_to_float
      (symbolic v ∷ plain (flag_operand (is_double dest)) ∷ []) (some id)

unfoldable pub visit_fp_trunc_inst : Symbolizer → ℕ → Value → Ty → Symbolizer
visit_fp_trunc_inst s id v dest =
    build_and_register s (before id) build_float_to_float
      (symbolic v ∷ plain (flag_operand (is_double dest)) ∷ []) (some id)

unfoldable pub visit_fp_to_si : Symbolizer → ℕ → Value → Ty → Symbolizer
visit_fp_to_si s id v dest =
    build_and_register s (before id) build_float_to_signed_integer
      (symbolic v ∷ plain (number (u8 (bit_width dest))) ∷ []) (some id)

unfoldable pub visit_fp_to_ui : Symbolizer → ℕ → Value → Ty → Symbolizer
visit_fp_to_ui s id v dest =
    build_and_register s (before id) build_float_to_unsigned_integer
      (symbolic v ∷ plain (number (u8 (bit_width dest))) ∷ []) (some id)

-- The opcodes that `visitCastInst` is left with.
pub data CastOpcode : Type 0 where
  sext zext other_cast : CastOpcode

unfoldable pub cast_target : CastOpcode → Option SymFn
cast_target sext = some build_sext
cast_target zext = some build_zext
cast_target other_cast = none

-- An extension of an integer; a Boolean is made a bit first.
unfoldable pub extend : Symbolizer → ℕ → SymFn → Value → Ty → Symbolizer
extend s id target v dest =
    if bit_width (type_of v) == 1
    then (let (s₁, bit) =
          force_build_runtime_call s (before id) build_bool_to_bit (symbolic v ∷ []) in
        let computation = merge empty_computation bit in
        let (s₂, extended) = force_build_runtime_call s₁ (before id) target (
          plain (last_operand computation) ∷ plain (number (u8 (sub64 (bit_width dest) 1))) ∷ []) in
        register_symbolic_computation s₂ (merge computation extended) (some id))
    else build_and_register s (before id) target
        (symbolic v ∷ plain (number (u8 (sub64 (bit_width dest) (bit_width (type_of v))))) ∷ [])
        (some id)

unfoldable pub visit_cast_inst : Symbolizer → ℕ → CastOpcode → Value → Ty → Symbolizer
unfolding cast_target extend
visit_cast_inst s id opcode v dest = elim (cast_target opcode) [
  | none ↦ s
  | some target ↦ extend s id target v dest
]

-- The type that an index of an address computation selects in: a structure, with the number of
-- the member, or an array or a pointer, with the index and the type of the elements.
pub data GepIndex : Type 0 where
  in_struct : Types → ℕ → GepIndex
  in_array : Value → Ty → GepIndex

pub is_zero_constant : Value → Bool
is_zero_constant (constant_int bits value) = value == 0
is_zero_constant v = false

unfoldable pub is_zero_index : GepIndex → Bool
unfolding is_zero_constant
is_zero_index (in_struct fields member) = member == 0
is_zero_index (in_array index type) = is_zero_constant index

unfoldable pub all_zero_indices : List GepIndex → Bool
unfolding is_zero_index
all_zero_indices [] = true
all_zero_indices (index ∷ indices) = is_zero_index index && all_zero_indices indices

pub is_concrete_index : Symbolizer → GepIndex → Bool
is_concrete_index s (in_struct fields member) = true
is_concrete_index s (in_array index type) = is_concrete_argument s (symbolic index)

pub all_concrete_indices : Symbolizer → List GepIndex → Bool
unfolding is_concrete_index
all_concrete_indices s [] = true
all_concrete_indices s (index ∷ indices) =
    is_concrete_index s index && all_concrete_indices s indices

-- The index times the size of an element; `unsigned` is 32 bits wide.
unfoldable pub scaled_index :
    DataLayout
    → Symbolizer
    → ℕ
    → SymbolicComputation
    → Value
    → Ty
    → Symbolizer × SymbolicComputation
scaled_index layout s id computation index type =
    let size = symbolic (constant_int layout.pointer_bits (layout.type_alloc_size type % 2 ^ 32)) in
    if bit_width (type_of index) == layout.pointer_bits
    then (let (s₁, scaled) =
          force_build_runtime_call s (before id) build_mul (symbolic index ∷ size ∷ []) in
        (s₁, merge computation scaled))
    else let (s₁, extended) = force_build_runtime_call s (before id) build_zext (
        symbolic index
        ∷ plain (number (u8 (sub64 layout.pointer_bits (bit_width (type_of index)))))
        ∷ []) in
      let widened = merge computation extended in
      let (s₂, scaled) =
        force_build_runtime_call s₁ (before id) build_mul
          (plain (last_operand widened) ∷ size ∷ []) in
      (s₂, merge widened scaled)

unfoldable pub add_contribution :
    Symbolizer → ℕ → SymbolicComputation → Arg → Arg → Symbolizer × SymbolicComputation
add_contribution s id computation contribution address =
    let (later, sum) =
      force_build_runtime_call s (before id) build_add (contribution ∷ address ∷ []) in
    (later, merge computation sum)

-- The loop over the indices; `address` is the address that is reached.
unfoldable pub add_indices :
    DataLayout
    → Symbolizer
    → ℕ
    → List GepIndex
    → SymbolicComputation
    → Arg
    → Symbolizer × SymbolicComputation
unfolding is_zero_constant scaled_index add_contribution
add_indices layout s id [] computation address = (s, computation)
add_indices layout s id (in_struct fields member ∷ indices) computation address =
    let offset = layout.element_offset fields (member % 2 ^ 32) % 2 ^ 32 in
    let (later, done) =
      add_contribution s id computation (symbolic (constant_int layout.pointer_bits offset))
        address in
    add_indices layout later id indices done (plain (last_operand done))
add_indices layout s id (in_array index type ∷ indices) computation address =
    let skipped = add_indices layout s id indices computation address in
    let (s₁, scaled) = scaled_index layout s id computation index type in
    let (s₂, done) = add_contribution s₁ id scaled (plain (last_operand scaled)) address in
    let added = add_indices layout s₂ id indices done (plain (last_operand done)) in
    if is_zero_constant index then skipped else added

unfoldable pub visit_get_element_ptr_inst :
    DataLayout → Symbolizer → ℕ → Value → List GepIndex → Symbolizer
unfolding all_concrete_indices all_zero_indices add_indices same_expression
visit_get_element_ptr_inst layout s id pointer indices =
    if is_concrete_argument s (symbolic pointer) && all_concrete_indices s indices
    then s
    else if all_zero_indices indices
    then same_expression s id pointer
    else let (later, computation) =
        add_indices layout s id indices empty_computation (symbolic pointer) in
      register_symbolic_computation later computation (some id)
