-- ===== src/Compiler/Ready/Addresses.antt =====
-- compiler/Symbolizer.cpp: the computation of an address keeps the state ready.
use sym_cc_modified.Base.{
  ℕ, ◌≡◌, ◌⊎◌, inl, inr, refl, sym, subst, false, ◌&&◌, some, List, [], ◌∷◌, ◌==◌, Bool-cases,
  arith, length,
}
use sym_cc_modified.Compiler.Runtime.{SymFn}
use sym_cc_modified.Compiler.Ir.{Ty, Value, Point, before, Placed, type_of, DataLayout}
use sym_cc_modified.Compiler.Symbolizer.{
  Symbolizer, SymbolicComputation, Arg, symbolic, merge, empty_computation,
  force_build_runtime_call, is_concrete_argument,
}
use sym_cc_modified.Compiler.Visit.{bit_width}
use sym_cc_modified.Compiler.Casts.{
  GepIndex, in_struct, in_array, is_zero_constant, is_zero_index, all_zero_indices,
  all_concrete_indices, scaled_index, add_contribution, add_indices, visit_get_element_ptr_inst,
}
use sym_cc_modified.Compiler.Ready.{IsReady, IsReadyComputation, IsNonempty-++}
use sym_cc_modified.Compiler.Ready.Steps.{
  force_build_runtime_call-IsReady, force_build_runtime_call-IsBounded,
  force_build_runtime_call-merge, register_symbolic_computation-IsReady,
}
use sym_cc_modified.Compiler.Ready.Results.{IsBounded-IsReadyComputation}
use sym_cc_modified.Compiler.Ready.Casts.{same_expression-IsReady}

-- Nothing has been computed yet, or a computation that is ready.
abbrev IsStarted : List Placed → SymbolicComputation → Type 0
IsStarted code c = (c ≡ empty_computation) ⊎ IsReadyComputation code c

-- What a step of the computation reaches.
abbrev IsStep : Symbolizer × SymbolicComputation → Type 0
IsStep (s, c) = IsReady s × IsReadyComputation s.code c

continued_call :
    (s : Symbolizer) (point : Point) (function : SymFn) (args : List Arg) (c : SymbolicComputation)
    → IsReady s
    → IsReadyComputation s.code c
    → IsReadyComputation
        (force_build_runtime_call s point function args).0.code
        (merge c (force_build_runtime_call s point function args).1)
unfolding merge IsReadyComputation
continued_call s point function args c h ready = (
  force_build_runtime_call-merge s point function args 0 c h ready.0,
  IsNonempty-++ c.inputs _ ready.1,
)

begun_call :
    (s : Symbolizer) (point : Point) (function : SymFn) (v : Value) (args : List Arg)
    (c : SymbolicComputation)
    → IsReady s
    → IsStarted s.code c
    → IsReadyComputation
        (force_build_runtime_call s point function (symbolic v ∷ args)).0.code
        (merge c (force_build_runtime_call s point function (symbolic v ∷ args)).1)
unfolding merge empty_computation force_build_runtime_call
begun_call s point function v args c h (inl e) =
    subst
      (λ c.
        IsReadyComputation (force_build_runtime_call s point function (symbolic v ∷ args)).0.code
          (merge c (force_build_runtime_call s point function (symbolic v ∷ args)).1))
      (sym e)
      (IsBounded-IsReadyComputation (length s.code) _ _
        (force_build_runtime_call-IsBounded s point function (symbolic v ∷ args) h) tt)
begun_call s point function v args c h (inr ready) =
    continued_call s point function (symbolic v ∷ args) c h ready

scaled_index-IsStep :
    (layout : DataLayout) (s : Symbolizer) (id : ℕ) (c : SymbolicComputation) (index : Value)
    (type : Ty)
    → IsReady s
    → IsStarted s.code c
    → IsStep (scaled_index layout s id c index type)
unfolding scaled_index
scaled_index-IsStep layout s id c index type h started =
    elim (Bool-cases (bit_width (type_of index) == layout.pointer_bits)) [
      | inl same ↦ rw same (
        force_build_runtime_call-IsReady s (before id) _ _ h,
        begun_call s (before id) _ index _ c h started,
      )
      | inr narrow ↦ rw narrow (
          let wide = force_build_runtime_call-IsReady s (before id) _ _ h in
          (
            force_build_runtime_call-IsReady _ (before id) _ _ wide,
            continued_call _ (before id) _ _ _ wide
                (begun_call s (before id) _ index _ c h started),
          ))
    ]

-- An index that is not zero, or the computation so far, makes the computation ready.
add_indices-IsStep :
    (layout : DataLayout) (id : ℕ) (indices : List GepIndex) (s : Symbolizer)
    (c : SymbolicComputation) (address : Arg)
    → IsReady s
    → IsStarted s.code c
    → (all_zero_indices indices ≡ false) ⊎ IsReadyComputation s.code c
    → IsStep (add_indices layout s id indices c address)
unfolding add_indices add_contribution all_zero_indices is_zero_index
add_indices-IsStep layout id [] s c address h started (inl e) = absurd (ground arith)
add_indices-IsStep layout id [] s c address h started (inr ready) = (h, ready)
add_indices-IsStep layout id (in_struct fields member ∷ indices) s c address h started some_index =
    let begun = begun_call s (before id) _ _ _ c h started in
    add_indices-IsStep layout id indices _ _ _
      (force_build_runtime_call-IsReady s (before id) _ _ h) (inr begun) (inr begun)
add_indices-IsStep layout id (in_array index type ∷ indices) s c address h started some_index =
    let (ready, scaled) = scaled_index-IsStep layout s id c index type h started in
    let added = continued_call _ (before id) _ _ _ ready scaled in
    elim (Bool-cases (is_zero_constant index)) [
      | inl skip ↦ rw skip (
          add_indices-IsStep layout id indices s c address h started (
            subst (λ b. (b && all_zero_indices indices ≡ false) ⊎ IsReadyComputation s.code c) skip
              some_index))
      | inr go_on ↦ rw go_on (
          add_indices-IsStep layout id indices _ _ _
            (force_build_runtime_call-IsReady _ (before id) _ _ ready) (inr added) (inr added))
    ]

pub visit_get_element_ptr_inst-IsReady :
    (layout : DataLayout) (s : Symbolizer) (id : ℕ) (pointer : Value) (indices : List GepIndex)
    → IsReady s
    → IsReady (visit_get_element_ptr_inst layout s id pointer indices)
unfolding visit_get_element_ptr_inst
visit_get_element_ptr_inst-IsReady layout s id pointer indices h =
    elim (Bool-cases
      (is_concrete_argument s (symbolic pointer) && all_concrete_indices s indices)) [
        | inl concrete ↦ rw concrete h
        | inr known ↦ rw known (elim (Bool-cases (all_zero_indices indices)) [
          | inl zeros ↦ rw zeros (same_expression-IsReady s id pointer h)
          | inr some_index ↦ rw some_index (
              let (ready, computation) =
                add_indices-IsStep layout id indices s empty_computation (symbolic pointer) h
                  (inl refl) (inl some_index) in
              register_symbolic_computation-IsReady _ _ (some id) ready computation)
        ])
      ]
