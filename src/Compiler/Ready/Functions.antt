-- ===== src/Compiler/Ready/Functions.antt =====
-- compiler/Pass.cpp: the visits of a function's instructions keep the state ready.
use sym_cc_modified.Base.{ℕ, List, [], ◌∷◌}
use sym_cc_modified.Compiler.Ir.{DataLayout}
use sym_cc_modified.Compiler.Symbolizer.{Symbolizer}
use sym_cc_modified.Compiler.Pass.{
  Instruction, binary_operator, unary_operator, select_inst, cmp_inst, return_inst, branch_inst,
  indirect_br_inst, call_inst, load_inst, store_inst, get_element_ptr_inst, bit_cast_inst,
  trunc_inst, si_to_fp_inst, ui_to_fp_inst, fp_ext_inst, fp_trunc_inst, fp_to_si, fp_to_ui,
  int_to_ptr_inst, ptr_to_int_inst, cast_inst, phi_node, insert_value_inst, extract_value_inst,
  switch_inst, no_effect, visit, visit_all, notify_blocks, fresh_symbolizer, Function,
  visit_function,
}
use sym_cc_modified.Compiler.Members.{insert_basic_block_notification}
use sym_cc_modified.Compiler.Ready.{IsReady}
use sym_cc_modified.Compiler.Ready.Results.{IsReadySome, IsReadySome-after}
use sym_cc_modified.Compiler.Ready.Visits.{
  visit_binary_operator-IsReadySome, visit_unary_operator-IsReady, visit_select_inst-IsReady,
  visit_cmp_inst-IsReadySome, visit_return_inst-IsReady, visit_branch_inst-IsReady,
  visit_indirect_br_inst-IsReadySome, visit_load_inst-IsReadySome, visit_store_inst-IsReadySome,
}
use sym_cc_modified.Compiler.Ready.Casts.{
  visit_bit_cast_inst-IsReadySome, visit_trunc_inst-IsReady, visit_int_to_ptr_inst-IsReady,
  visit_ptr_to_int_inst-IsReady, visit_si_to_fp_inst-IsReady, visit_ui_to_fp_inst-IsReady,
  visit_fp_ext_inst-IsReady, visit_fp_trunc_inst-IsReady, visit_fp_to_si-IsReady,
  visit_fp_to_ui-IsReady, visit_cast_inst-IsReady,
}
use sym_cc_modified.Compiler.Ready.Addresses.{visit_get_element_ptr_inst-IsReady}
use sym_cc_modified.Compiler.Ready.Members.{
  visit_insert_value_inst-IsReadySome, visit_extract_value_inst-IsReadySome, visit_phi_node-IsReady,
  visit_switch_inst-IsReadySome, symbolize_function_arguments-IsReady,
  insert_basic_block_notification-IsReady,
}
use sym_cc_modified.Compiler.Ready.Calls.{handle_function_call-IsReadySome}

visit-IsReadySome :
    (layout : DataLayout) (s : Symbolizer) (id : ℕ) (instruction : Instruction)
    → IsReady s
    → IsReadySome (visit layout s id instruction)
unfolding visit
visit-IsReadySome layout s id (binary_operator opcode left right) h =
    visit_binary_operator-IsReadySome s id opcode left right h
visit-IsReadySome layout s id (unary_operator v) h = visit_unary_operator-IsReady s id v h
visit-IsReadySome layout s id (select_inst condition left right) h =
    visit_select_inst-IsReady s id condition left right h
visit-IsReadySome layout s id (cmp_inst predicate left right) h =
    visit_cmp_inst-IsReadySome s id predicate left right h
visit-IsReadySome layout s id (return_inst v) h = visit_return_inst-IsReady s id v h
visit-IsReadySome layout s id (branch_inst condition) h = visit_branch_inst-IsReady s id condition h
visit-IsReadySome layout s id (indirect_br_inst address) h =
    visit_indirect_br_inst-IsReadySome layout s id address h
visit-IsReadySome layout s id (call_inst callee arguments is_used) h =
    handle_function_call-IsReadySome layout s id callee arguments is_used h
visit-IsReadySome layout s id (load_inst type addr) h =
    visit_load_inst-IsReadySome layout s id type addr h
visit-IsReadySome layout s id (store_inst addr v) h =
    visit_store_inst-IsReadySome layout s id addr v h
visit-IsReadySome layout s id (get_element_ptr_inst pointer indices) h =
    visit_get_element_ptr_inst-IsReady layout s id pointer indices h
visit-IsReadySome layout s id (bit_cast_inst v dest) h =
    visit_bit_cast_inst-IsReadySome s id v dest h
visit-IsReadySome layout s id (trunc_inst v dest) h = visit_trunc_inst-IsReady s id v dest h
visit-IsReadySome layout s id (si_to_fp_inst v dest) h = visit_si_to_fp_inst-IsReady s id v dest h
visit-IsReadySome layout s id (ui_to_fp_inst v dest) h = visit_ui_to_fp_inst-IsReady s id v dest h
visit-IsReadySome layout s id (fp_ext_inst v dest) h = visit_fp_ext_inst-IsReady s id v dest h
visit-IsReadySome layout s id (fp_trunc_inst v dest) h = visit_fp_trunc_inst-IsReady s id v dest h
visit-IsReadySome layout s id (fp_to_si v dest) h = visit_fp_to_si-IsReady s id v dest h
visit-IsReadySome layout s id (fp_to_ui v dest) h = visit_fp_to_ui-IsReady s id v dest h
visit-IsReadySome layout s id (int_to_ptr_inst v) h = visit_int_to_ptr_inst-IsReady s id v h
visit-IsReadySome layout s id (ptr_to_int_inst v) h = visit_ptr_to_int_inst-IsReady s id v h
visit-IsReadySome layout s id (cast_inst opcode v dest) h =
    visit_cast_inst-IsReady s id opcode v dest h
visit-IsReadySome layout s id (phi_node incoming) h = visit_phi_node-IsReady s id incoming h
visit-IsReadySome layout s id (insert_value_inst target inserted indices) h =
    visit_insert_value_inst-IsReadySome layout s id target inserted indices h
visit-IsReadySome layout s id (extract_value_inst target indices type) h =
    visit_extract_value_inst-IsReadySome layout s id target indices type h
visit-IsReadySome layout s id (switch_inst condition cases) h =
    visit_switch_inst-IsReadySome layout s id condition cases h
visit-IsReadySome layout s id no_effect h = h

visit_all-IsReadySome :
    (layout : DataLayout) (instructions : List (ℕ × Instruction)) (s : Symbolizer)
    → IsReady s
    → IsReadySome (visit_all layout s instructions)
unfolding visit_all
visit_all-IsReadySome layout [] s h = h
visit_all-IsReadySome layout ((id, instruction) ∷ instructions) s h =
    IsReadySome-after (visit layout s id instruction) _
      (visit-IsReadySome layout s id instruction h)
      (λ visited ready. visit_all-IsReadySome layout instructions visited ready)

notify_blocks-IsReady :
    (blocks : List ℕ) (s : Symbolizer) → IsReady s → IsReady (notify_blocks s blocks)
unfolding notify_blocks
notify_blocks-IsReady [] s h = h
notify_blocks-IsReady (block ∷ blocks) s h =
    notify_blocks-IsReady blocks (insert_basic_block_notification s block)
      (insert_basic_block_notification-IsReady s block h)

pub visit_function-IsReadySome :
    (layout : DataLayout) (f : Function) → IsReadySome (visit_function layout f)
unfolding visit_function fresh_symbolizer IsReady
visit_function-IsReadySome layout f = visit_all-IsReadySome layout f.instructions _ (
    notify_blocks-IsReady f.blocks _ (
      symbolize_function_arguments-IsReady f.is_main fresh_symbolizer f.entry_block f.used_arguments
        (tt, tt)))
