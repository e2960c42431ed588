-- ===== src/Compiler/Pass.antt =====
-- compiler/Symbolizer.cpp and compiler/Pass.cpp: the pass over a function, which visits its
-- instructions and then replaces the PHI nodes that are always concrete.
use sym_cc_modified.Base.{ℕ, Bool, Option, none, some, List, [], ◌∷◌, if◌then◌else◌, ◌>>=◌}
use sym_cc_modified.Compiler.Runtime.{BinaryOpcode, Predicate}
use sym_cc_modified.Compiler.Ir.{Ty, Value, DataLayout}
use sym_cc_modified.Compiler.Symbolizer.{Symbolizer}
use sym_cc_modified.Compiler.Visit.{
  visit_binary_operator, visit_unary_operator, visit_select_inst, visit_cmp_inst, visit_return_inst,
  visit_branch_inst, visit_indirect_br_inst, visit_load_inst, visit_store_inst,
}
use sym_cc_modified.Compiler.Casts.{
  CastOpcode, GepIndex, visit_bit_cast_inst, visit_trunc_inst, visit_int_to_ptr_inst,
  visit_ptr_to_int_inst, visit_si_to_fp_inst, visit_ui_to_fp_inst, visit_fp_ext_inst,
  visit_fp_trunc_inst, visit_fp_to_si, visit_fp_to_ui, visit_cast_inst, visit_get_element_ptr_inst,
}
use sym_cc_modified.Compiler.Members.{
  visit_insert_value_inst, visit_extract_value_inst, visit_phi_node, visit_switch_inst,
  symbolize_function_arguments, insert_basic_block_notification,
}
use sym_cc_modified.Compiler.Calls.{Callee, handle_function_call}
use sym_cc_modified.Compiler.PhiNodes.{finalize_phi_nodes}
use sym_cc_modified.Compiler.ShortCircuit.{ShortCircuit, short_circuit_expression_uses}

-- The program's instructions with what their visitors read. A call has its callee, its arguments
-- and whether its result is used; `no_effect` stands for `alloca`, `unreachable` and the
-- instructions that the pass does not know.
pub data Instruction : Type 0 where
  binary_operator : BinaryOpcode → Value → Value → Instruction
  unary_operator : Value → Instruction
  select_inst : Value → Value → Value → Instruction
  cmp_inst : Predicate → Value → Value → Instruction
  return_inst branch_inst : Option Value → Instruction
  indirect_br_inst : Value → Instruction
  call_inst : Callee → List Value → Bool → Instruction
  load_inst : Ty → Value → Instruction
  store_inst : Value → Value → Instruction
  get_element_ptr_inst : Value → List GepIndex → Instruction
  bit_cast_inst trunc_inst si_to_fp_inst ui_to_fp_inst : Value → Ty → Instruction
  fp_ext_inst fp_trunc_inst fp_to_si fp_to_ui : Value → Ty → Instruction
  int_to_ptr_inst ptr_to_int_inst : Value → Instruction
  cast_inst : CastOpcode → Value → Ty → Instruction
  phi_node : List Value → Instruction
  insert_value_inst : Value → Value → List ℕ → Instruction
  extract_value_inst : Value → List ℕ → Ty → Instruction
  switch_inst : Value → List Value → Instruction
  no_effect : Instruction

unfoldable pub visit : DataLayout → Symbolizer → ℕ → Instruction → Option Symbolizer
visit layout s id (binary_operator opcode left right) = visit_binary_operator s id opcode left right
visit layout s id (unary_operator v) = some (visit_unary_operator s id v)
visit layout s id (select_inst condition left right) =
    some (visit_select_inst s id condition left right)
visit layout s id (cmp_inst predicate left right) = visit_cmp_inst s id predicate left right
visit layout s id (return_inst v) = some (visit_return_inst s id v)
visit layout s id (branch_inst condition) = some (visit_branch_inst s id condition)
visit layout s id (indirect_br_inst address) = visit_indirect_br_inst layout s id address
visit layout s id (call_inst callee arguments is_used) =
    handle_function_call layout s id callee arguments is_used
visit layout s id (load_inst type addr) = visit_load_inst layout s id type addr
visit layout s id (store_inst addr v) = visit_store_inst layout s id addr v
visit layout s id (get_element_ptr_inst pointer indices) =
    some (visit_get_element_ptr_inst layout s id pointer indices)
visit layout s id (bit_cast_inst v dest) = visit_bit_cast_inst s id v dest
visit layout s id (trunc_inst v dest) = some (visit_trunc_inst s id v dest)
visit layout s id (si_to_fp_inst v dest) = some (visit_si_to_fp_inst s id v dest)
visit layout s id (ui_to_fp_inst v dest) = some (visit_ui_to_fp_inst s id v dest)
visit layout s id (fp_ext_inst v dest) = some (visit_fp_ext_inst s id v dest)
visit layout s id (fp_trunc_inst v dest) = some (visit_fp_trunc_inst s id v dest)
visit layout s id (fp_to_si v dest) = some (visit_fp_to_si s id v dest)
visit layout s id (fp_to_ui v dest) = some (visit_fp_to_ui s id v dest)
visit layout s id (int_to_ptr_inst v) = some (visit_int_to_ptr_inst s id v)
visit layout s id (ptr_to_int_inst v) = some (visit_ptr_to_int_inst s id v)
visit layout s id (cast_inst opcode v dest) = some (visit_cast_inst s id opcode v dest)
visit layout s id (phi_node incoming) = some (visit_phi_node s id incoming)
visit layout s id (insert_value_inst target inserted indices) =
    visit_insert_value_inst layout s id target inserted indices
visit layout s id (extract_value_inst target indices type) =
    visit_extract_value_inst layout s id target indices type
visit layout s id (switch_inst condition cases) = visit_switch_inst layout s id condition cases
visit layout s id no_effect = some s

unfoldable pub visit_all : DataLayout → Symbolizer → List (ℕ × Instruction) → Option Symbolizer
unfolding visit
visit_all layout s [] = some s
visit_all layout s ((id, instruction) ∷ instructions) =
    visit layout s id instruction >>= λ visited. visit_all layout visited instructions

unfoldable pub notify_blocks : Symbolizer → List ℕ → Symbolizer
notify_blocks s [] = s
notify_blocks s (block ∷ blocks) = notify_blocks (insert_basic_block_notification s block) blocks

unfoldable pub fresh_symbolizer : Symbolizer
fresh_symbolizer = record {
  symbolic_expressions = [];
  expression_uses = [];
  phi_nodes = [];
  code = [];
}

-- A function: whether its name is that of the constructor or starts with `sym_asan`, whether it is
-- called `main`, its entry block, its arguments that are used with their
-- places, its blocks, and its instructions.
pub record Function : Type 0 where
  pub is_excluded : Bool
  pub is_main : Bool
  pub entry_block : ℕ
  pub used_arguments : List (ℕ × ℕ)
  pub blocks : List ℕ
  pub instructions : List (ℕ × Instruction)

-- `instrumentFunction` up to the visits.
unfoldable pub visit_function : DataLayout → Function → Option Symbolizer
unfolding visit_all notify_blocks fresh_symbolizer
visit_function layout f =
    let started =
      symbolize_function_arguments f.is_main fresh_symbolizer f.entry_block f.used_arguments in
    visit_all layout (notify_blocks started f.blocks) f.instructions

-- `instrumentFunction`: nothing for a function that is excluded. The instructions are those that
-- are left when intrinsics have been lowered and inline assembly has been lifted. `verify_function`
-- is LLVM's check of the function that is left, true where it finds no error.
unfoldable pub instrument_function :
    (Symbolizer → List ShortCircuit → Bool)
    → DataLayout
    → Function
    → Option (Option (Symbolizer × List ShortCircuit))
unfolding visit_function
instrument_function verify_function layout f =
    let instrumented = visit_function layout f >>= λ visited. finalize_phi_nodes visited >>= λ done.
    short_circuit_expression_uses layout done.code done.expression_uses >>= λ plans.
    if verify_function done plans then some (some (done, plans)) else none in
    if f.is_excluded then some none else instrumented
