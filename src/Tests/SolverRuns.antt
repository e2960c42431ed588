-- ===== src/Tests/SolverRuns.antt =====
-- Runs of the simple backend, with a solver for constraints on an input of one bit.
use sym_cc_modified.Base.{
  ◌≡◌, refl, Bool, true, false, not, ◌&&◌, ◌||◌, none, some, List, [], ◌∷◌, arith,
}
use sym_cc_modified.SimpleBackend.{
  Solver, Semantics, PathState, push_path_constraint, get_input_byte,
}
use sym_cc_modified.SimpleBackend.PathCondition.{PushedOrUnanswered, push_path_constraint-Pushed}
use sym_cc_modified.SimpleBackend.InputBytes.{get_input_byte_gap}

abbrev Constraint : Type 0
Constraint = Bool → Bool

abbrev all_true : Bool → List Constraint → Bool
all_true i [] = true
all_true i (c ∷ cs) = c i && all_true i cs

abbrev bit_solver : Solver Constraint
bit_solver = record {
  simplify = λ c. c;
  mk_not = λ c i. not (c i);
  is_true = λ c. c true && c false;
  is_false = λ c. not (c true) && not (c false);
  check = λ cs. all_true true cs || all_true false cs;
}

certain : (i : Bool) (c : Constraint) → c true && c false ≡ true → c i ≡ true
certain true c h = ground arith
certain false c h = ground arith

impossible : (i : Bool) (c : Constraint) → not (c true) && not (c false) ≡ true → c i ≡ false
impossible true c h = ground arith
impossible false c h = ground arith

abbrev bit_semantics : Semantics bit_solver Bool
bit_semantics = record {
  holds = λ i c. c i;
  holds-simplify = λ i c. refl;
  holds-mk_not = λ i c. refl;
  holds-is_true = certain;
  holds-is_false = impossible;
}

abbrev start : PathState Constraint
start = record { assertions = []; log = [] }

push_path_constraint-Pushed_example :
    PushedOrUnanswered bit_semantics start
      (λ i. not i)
      false
      (push_path_constraint bit_solver start (some (λ i. not i)) false)
push_path_constraint-Pushed_example =
    push_path_constraint-Pushed bit_semantics start (λ i. not i) false true refl

get_input_byte_gap_example :
    ((get_input_byte (λ n. n) (some 0 ∷ []) 3).1 ≡ some 1)
    × ((get_input_byte (λ n. n) (get_input_byte (λ n. n) (some 0 ∷ []) 3).0 2).1 ≡ none)
get_input_byte_gap_example =
    get_input_byte_gap (λ n. n) (some 0 ∷ []) 3 2 (omega arith) (omega arith)
