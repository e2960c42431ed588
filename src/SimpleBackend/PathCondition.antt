-- ===== src/SimpleBackend/PathCondition.antt =====
-- The solver's assertions are the path condition, and the queries ask for a divergence from it.
use sym_cc_modified.Base.{
  ◌≡◌, ◌⊎◌, inl, inr, refl, sym, ap, ◌∙◌, Bool, true, false, not, ◌&&◌, Option, none, some, List,
  [], ◌∷◌, ◌++◌, arith, if◌then◌else◌, Bool-cases,
}
use sym_cc_modified.SimpleBackend.{
  Solver, Semantics, Attempt, PathState, solve_alternative, assert_constraint, push_path_constraint,
}

module _ {C I : Type 0} {z : Solver C} (s : Semantics z I) where
  unfoldable pub all_hold : I → List C → Bool
  all_hold i [] = true
  all_hold i (c ∷ cs) = s.holds i c && all_hold i cs

  -- Whether an input goes the same way at a branch.
  abbrev pub agrees : I → C → Bool → Bool
  agrees i c taken = if taken then s.holds i c else not (s.holds i c)

  all_hold-append :
      (i : I) (cs : List C) (c : C) → all_hold i (cs ++ (c ∷ [])) ≡ all_hold i cs && s.holds i c
  unfolding all_hold
  all_hold-append i [] c = ground arith
  all_hold-append i (d ∷ cs) c = ground (arith, all_hold-append i cs c)

  -- The assertions of `later` hold for the inputs for which those of `state` do and which go the
  -- same way at the branch. Either every input goes that way, and nothing was tried; or the one
  -- query that was tried is satisfied by the inputs that reach the branch and go the other way.
  pub record Pushed (state : PathState C) (c : C) (taken : Bool) (later : PathState C)
      : Type 0 where
    pub path :
        (i : I) → all_hold i later.assertions ≡ all_hold i state.assertions && agrees i c taken
    pub tried :
        ((later.log ≡ state.log) × ((i : I) → agrees i c taken ≡ true))
        ⊎ ((attempt : Attempt C) × (later.log ≡ attempt ∷ state.log)
            × (attempt.feasible ≡ z.check attempt.query)
            × ((i : I)
                → all_hold i attempt.query ≡ all_hold i state.assertions && not (agrees i c taken)))

  always-Pushed :
      (state : PathState C) (c : C) (taken : Bool)
      → ((i : I) → agrees i c taken ≡ true)
      → Pushed state c taken state
  always-Pushed state c taken h = record { path = λ i. ground (arith, h i); tried = inl (refl, h) }

  -- Pushing ends in a state with the constraint on the path, or fails the assertion that the solver
  -- finds the new path condition feasible, and then the solver gave another answer.
  abbrev pub PushedOrUnanswered : PathState C → C → Bool → Option (PathState C) → Type 0
  PushedOrUnanswered state c taken result =
      ((later : PathState C) × (result ≡ some later) × Pushed state c taken later)
      ⊎ ((result ≡ none)
          × ((way : C) × ((i : I) → s.holds i way ≡ agrees i c taken)
              × (z.check (state.assertions ++ (way ∷ [])) ≡ false)))

  -- Asserting `way`, after trying `other`.
  both-Pushed :
      (state : PathState C) (c way other : C) (taken : Bool)
      → ((i : I) → s.holds i way ≡ agrees i c taken)
      → ((i : I) → s.holds i other ≡ not (agrees i c taken))
      → PushedOrUnanswered state c taken (assert_constraint z (solve_alternative z state other) way)
  unfolding assert_constraint solve_alternative
  both-Pushed state c way other taken p q =
      elim (Bool-cases (z.check (state.assertions ++ (way ∷ [])))) [
        | inl h ↦ inl (
          record (solve_alternative z state other) { assertions = state.assertions ++ (way ∷ []) },
          rw h,
          record {
            path = λ i. all_hold-append i state.assertions way ∙ rw (p i);
            tried = inr (_, refl, refl, λ i. all_hold-append i state.assertions other ∙ rw (q i));
          },
        )
        | inr h ↦ inr (rw h, (way, p, h))
      ]

  -- Given Z3's laws and an input that goes the way that was taken, pushing a path constraint has
  -- one of two ends. Either it succeeds: the new assertions hold for exactly the inputs for which
  -- the old ones do and which go the same way at the branch, and either every input goes that way
  -- and nothing is tried, or the one query that is tried and logged is satisfied by exactly the
  -- inputs that satisfy the old assertions and go the other way. Or an assertion fails, and then
  -- the solver's answer for the old assertions with a constraint that holds for exactly the
  -- inputs that go the same way was not that they are satisfiable.
  pub push_path_constraint-Pushed :
      (state : PathState C) (c : C) (taken : Bool) (input : I)
      → agrees input c taken ≡ true
      → PushedOrUnanswered state c taken (push_path_constraint z state (some c) taken)
  unfolding push_path_constraint
  push_path_constraint-Pushed state c taken input here =
      elim (Bool-cases (z.is_true (z.simplify c))) [
        | inl certain ↦ rw certain (certainly taken certain here)
        | inr unknown ↦ rw unknown (elim (Bool-cases (z.is_false (z.simplify c))) [
          | inl impossible ↦ rw impossible (never taken impossible here)
          | inr unclear ↦ rw unclear (either taken)
        ])
      ]
    where
      simplified : (i : I) → s.holds i (z.simplify c) ≡ s.holds i c
      simplified i = s.holds-simplify i c

      negated : (i : I) → s.holds i (z.simplify (z.mk_not (z.simplify c))) ≡ not (s.holds i c)
      negated i = s.holds-simplify i _ ∙ s.holds-mk_not i _ ∙ ap not (simplified i)

      certainly :
          (taken : Bool)
          → z.is_true (z.simplify c) ≡ true
          → agrees input c taken ≡ true
          → PushedOrUnanswered state c taken (if taken then some state else none)
      certainly true h k = inl (
        state,
        refl,
        always-Pushed state c true (λ i. sym (simplified i) ∙ s.holds-is_true i _ h),
      )
      certainly false h k = absurd (ground (arith, simplified input, s.holds-is_true input _ h))

      never :
          (taken : Bool)
          → z.is_false (z.simplify c) ≡ true
          → agrees input c taken ≡ true
          → PushedOrUnanswered state c taken (if taken then none else some state)
      never false h k = inl (
        state,
        refl,
        always-Pushed state c false (λ i. ap not (sym (simplified i) ∙ s.holds-is_false i _ h)),
      )
      never true h k = absurd (ground (arith, simplified input, s.holds-is_false input _ h))

      either :
          (taken : Bool)
          → PushedOrUnanswered state c taken (
              assert_constraint z
                (solve_alternative z state
                  (if taken then z.simplify (z.mk_not (z.simplify c)) else z.simplify c))
                (if taken then z.simplify c else z.simplify (z.mk_not (z.simplify c))))
      either true =
          both-Pushed state c (z.simplify c) (z.simplify (z.mk_not (z.simplify c))) true simplified
            negated
      either false =
          both-Pushed state c (z.simplify (z.mk_not (z.simplify c))) (z.simplify c) false negated
            (λ i. ground (arith, simplified i))
