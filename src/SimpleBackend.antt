-- ===== src/SimpleBackend.antt =====
-- runtime/simple_backend/Runtime.cpp: path constraints, input bytes and the table of allocated
-- expressions. `none` stands for an assertion that fails.
pub mod PathCondition
pub mod InputBytes
use sym_cc_modified.Base.{
  ℕ, zero, suc, ◌+◌, ◌≡◌, Bool, true, false, not, Option, none, some, List, [], ◌∷◌, ◌++◌, length,
  if◌then◌else◌, ltb,
}

-- What the backend calls of Z3. `check` says whether the answer is `Z3_L_TRUE`.
pub record Solver (C : Type 0) : Type 0 where
  pub simplify : C → C
  pub mk_not : C → C
  pub is_true : C → Bool
  pub is_false : C → Bool
  pub check : List C → Bool

-- What is said of it: Boolean constraints under an assignment `i` of the input bytes.
pub record Semantics {C : Type 0} (z : Solver C) (I : Type 0) : Type 0 where
  pub holds : I → C → Bool
  pub holds-simplify : (i : I) (c : C) → holds i (z.simplify c) ≡ holds i c
  pub holds-mk_not : (i : I) (c : C) → holds i (z.mk_not c) ≡ not (holds i c)
  pub holds-is_true : (i : I) (c : C) → z.is_true c ≡ true → holds i c ≡ true
  pub holds-is_false : (i : I) (c : C) → z.is_false c ≡ true → holds i c ≡ false

-- A line of the log: the assertions that were checked, and whether they had a solution.
pub record Attempt (C : Type 0) : Type 0 where
  pub query : List C
  pub feasible : Bool

-- The solver's assertions, oldest first, and the log, newest first.
pub record PathState (C : Type 0) : Type 0 where
  pub assertions : List C
  pub log : List (Attempt C)

module _ {C : Type 0} (z : Solver C) where
  -- The alternative is checked in a scope of its own, which is popped again.
  pub solve_alternative : PathState C → C → PathState C
  solve_alternative state alternative =
      let query = state.assertions ++ (alternative ∷ []) in
      record state { log = record { query = query; feasible = z.check query } ∷ state.log }

  pub assert_constraint : PathState C → C → Option (PathState C)
  assert_constraint state new_constraint =
      let assertions = state.assertions ++ (new_constraint ∷ []) in
      if z.check assertions then some (record state { assertions = assertions }) else none

  pub push_path_constraint : PathState C → Option C → Bool → Option (PathState C)
  unfolding solve_alternative assert_constraint
  push_path_constraint state none taken = some state
  push_path_constraint state (some unsimplified) taken =
      let constraint = z.simplify unsimplified in
      if z.is_true constraint
      then (if taken then some state else none)
      else if z.is_false constraint
      then (if taken then none else some state)
      else let not_constraint = z.simplify (z.mk_not constraint) in
        assert_constraint (solve_alternative state (if taken then not_constraint else constraint))
          (if taken then constraint else not_constraint)

module _ {E : Type 0} where
  -- `stdinBytes[offset]`, for an offset in range.
  pub byte_at : List (Option E) → ℕ → Option E
  byte_at [] offset = none
  byte_at (e ∷ bytes) zero = e
  byte_at (e ∷ bytes) (suc offset) = byte_at bytes offset

  -- `std::vector::resize`: cut, or filled up with null.
  pub resize : List (Option E) → ℕ → List (Option E)
  resize bytes zero = []
  resize [] (suc n) = none ∷ resize [] n
  resize (e ∷ bytes) (suc n) = e ∷ resize bytes n

-- `build_variable n` is the variable named "stdin" with `n` behind it.
module _ {E : Type 0} (build_variable : ℕ → E) where
  pub get_input_byte : List (Option E) → ℕ → List (Option E) × Option E
  unfolding resize byte_at
  get_input_byte stdin_bytes offset =
      if ltb offset (length stdin_bytes)
      then (stdin_bytes, byte_at stdin_bytes offset)
      else let var = build_variable (length stdin_bytes) in
        (resize stdin_bytes offset ++ (some var ∷ []), some var)
