-- ===== src/Compiler/Ready.antt =====
-- compiler/Symbolizer.h: what holds of the state of the pass, so that the computations can be
-- short-circuited, and that it holds on when code is added.
pub mod Steps
pub mod Results
pub mod Visits
pub mod Casts
pub mod Members
pub mod Calls
pub mod Addresses
pub mod Functions
pub mod PhiNodes
use sym_cc_modified.Base.{
  ℕ, zero, suc, ◌+◌, ◌≡◌, ◌≤◌, ◌<◌, ◌⊎◌, inl, inr, refl, sym, ap, ◌∙◌, Bool, true, false, ◌&&◌,
  Option, none, some, List, [], ◌∷◌, ◌++◌, length, length-append, get_elem?, append_assoc, arith,
  ◌==◌, if◌then◌else◌, ◌>>=◌, Bool-cases,
}
use sym_cc_modified.Compiler.Runtime.{SymFn}
use sym_cc_modified.Compiler.Ir.{
  Value, local, constant, constant_int, constant_null, undef, constant_struct, element, Operand,
  null_expression, result, concrete, number, site, Emitted, call, select, phi, value_expression,
  compare_values, Point, Placed,
}
use sym_cc_modified.Compiler.Symbolizer.{
  operands_of, operands_at, operand_at, Symbolizer, SymbolicComputation, Input, Arg, symbolic,
  plain, merge, empty_computation, emit, set_expression, get_symbolic_expression,
  get_symbolic_expression_or_null, find_expression, argument_operand, argument_operands,
  inputs_from, force_build_runtime_call, is_concrete_argument, all_concrete, build_runtime_call,
  build_and_register, register_symbolic_computation, register_optional, result_of,
}

pub get_elem?-append :
    {A : Type 0} (xs ys : List A) (i : ℕ) {x : A}
    → get_elem? xs i ≡ some x
    → get_elem? (xs ++ ys) i ≡ some x
get_elem?-append [] ys i h = absurd (ground arith)
get_elem?-append (y ∷ xs) ys zero h = h
get_elem?-append (y ∷ xs) ys (suc i) h = get_elem?-append xs ys i h

pub get_elem?-last :
    {A : Type 0} (xs : List A) (x : A) → get_elem? (xs ++ (x ∷ [])) (length xs) ≡ some x
get_elem?-last [] x = refl
get_elem?-last (y ∷ xs) x = get_elem?-last xs x

pub le-append : {A : Type 0} (xs ys : List A) → length xs ≤ length (xs ++ ys)
le-append xs ys = omega (arith, length-append xs ys)

pub lt-snoc : {A : Type 0} (xs : List A) (x : A) → length xs < length (xs ++ (x ∷ []))
lt-snoc xs x = omega (arith, length-append xs (x ∷ []))

pub le-append_of_lt : {A : Type 0} {n : ℕ} (xs ys : List A) → n < length xs → n ≤ length (xs ++ ys)
le-append_of_lt xs ys h = omega (arith, length-append xs ys)

-- The null expression, or the result of an instruction that is inserted earlier than `n`.
unfoldable pub IsExpression : ℕ → Operand → Type 0
IsExpression n null_expression = Unit
IsExpression n (result i) = i < n
IsExpression n (concrete v) = ⊥
IsExpression n (number m) = ⊥
IsExpression n (site id) = ⊥

-- The input's operand is an expression, and its user is between the two instructions.
abbrev pub IsReadyInput : List Placed → ℕ → ℕ → Input → Type 0
IsReadyInput code first last input =
    (first ≤ input.user)
    × (input.user ≤ last)
    × (o : Operand) × (operand_at code input.user input.operand_index ≡ some o)
    × IsExpression input.user o

abbrev pub AreReadyInputs : List Placed → ℕ → ℕ → List Input → Type 0
AreReadyInputs code first last [] = Unit
AreReadyInputs code first last (input ∷ inputs) =
    IsReadyInput code first last input × AreReadyInputs code first last inputs

-- The computation's inputs are between its first and its last instruction, which are inserted, the
-- first as number `start` or later.
abbrev pub IsBounded : ℕ → List Placed → SymbolicComputation → Type 0
IsBounded start code c =
    (first : ℕ) × (last : ℕ) × (c.first_instruction ≡ some first)
    × (c.last_instruction ≡ some last)
    × (start ≤ first)
    × (first ≤ last)
    × (last < length code)
    × AreReadyInputs code first last c.inputs

abbrev pub IsNonempty : {A : Type 0} → List A → Type 0
IsNonempty [] = ⊥
IsNonempty (x ∷ xs) = Unit

pub IsNonempty-++ : {A : Type 0} (xs ys : List A) → IsNonempty xs → IsNonempty (xs ++ ys)
IsNonempty-++ [] ys h = absurd h
IsNonempty-++ (x ∷ xs) ys h = tt

unfoldable pub IsReadyComputation : List Placed → SymbolicComputation → Type 0
IsReadyComputation code c = IsBounded 0 code c × IsNonempty c.inputs

abbrev pub AreReadyComputations : List Placed → List SymbolicComputation → Type 0
AreReadyComputations code [] = Unit
AreReadyComputations code (c ∷ cs) = IsReadyComputation code c × AreReadyComputations code cs

abbrev pub AreExpressions : ℕ → List (ℕ × Operand) → Type 0
AreExpressions n [] = Unit
AreExpressions n ((id, o) ∷ entries) = IsExpression n o × AreExpressions n entries

-- All the expressions are results of inserted instructions, and all the computations are ready.
unfoldable pub IsReady : Symbolizer → Type 0
IsReady s =
    AreExpressions (length s.code) s.symbolic_expressions
    × AreReadyComputations s.code s.expression_uses

-- More code.
pub IsExpression-le : {m n : ℕ} (o : Operand) → m ≤ n → IsExpression m o → IsExpression n o
unfolding IsExpression
IsExpression-le null_expression le h = tt
IsExpression-le (result i) le h = omega arith
IsExpression-le (concrete v) le h = h
IsExpression-le (number k) le h = h
IsExpression-le (site id) le h = h

pub AreExpressions-le :
    {m n : ℕ} (entries : List (ℕ × Operand))
    → m ≤ n
    → AreExpressions m entries
    → AreExpressions n entries
AreExpressions-le [] le h = tt
AreExpressions-le ((id, o) ∷ entries) le h =
    (IsExpression-le o le h.0, AreExpressions-le entries le h.1)

pub operand_at-append :
    (code more : List Placed) (user i : ℕ) {o : Operand}
    → operand_at code user i ≡ some o
    → operand_at (code ++ more) user i ≡ some o
unfolding operand_at operands_at
operand_at-append [] more user i h = absurd (ground arith)
operand_at-append (p ∷ code) more zero i h = h
operand_at-append (p ∷ code) more (suc user) i h = operand_at-append code more user i h

-- The instruction that has just been inserted.
pub operand_at-last :
    (code : List Placed) (point : Point) (function : SymFn) (operands : List Operand) (i : ℕ)
    → operand_at
        (code ++ (record { point = point; emitted = call function operands } ∷ []))
        (length code)
        i
      ≡ get_elem? operands i
unfolding operand_at operands_at operands_of
operand_at-last [] point function operands i = refl
operand_at-last (p ∷ code) point function operands i =
    operand_at-last code point function operands i

pub AreReadyInputs-append :
    (code more : List Placed) {first last first₁ last₁ : ℕ} (inputs : List Input)
    → first₁ ≤ first
    → last ≤ last₁
    → AreReadyInputs code first last inputs
    → AreReadyInputs (code ++ more) first₁ last₁ inputs
AreReadyInputs-append code more [] p q h = tt
AreReadyInputs-append code more (input ∷ inputs) p q ((lo, hi, o, at, ok), rest) = (
  (omega arith, omega arith, o, operand_at-append code more input.user input.operand_index at, ok),
  AreReadyInputs-append code more inputs p q rest,
)

pub AreReadyInputs-widen :
    (code : List Placed) {first last first₁ last₁ : ℕ} (inputs : List Input)
    → first₁ ≤ first
    → last ≤ last₁
    → AreReadyInputs code first last inputs
    → AreReadyInputs code first₁ last₁ inputs
AreReadyInputs-widen code [] p q h = tt
AreReadyInputs-widen code (input ∷ inputs) p q ((lo, hi, o, at, ok), rest) =
    ((omega arith, omega arith, o, at, ok), AreReadyInputs-widen code inputs p q rest)

pub AreReadyInputs-++ :
    (code : List Placed) (first last : ℕ) (xs ys : List Input)
    → AreReadyInputs code first last xs
    → AreReadyInputs code first last ys
    → AreReadyInputs code first last (xs ++ ys)
AreReadyInputs-++ code first last [] ys p q = q
AreReadyInputs-++ code first last (x ∷ xs) ys p q =
    (p.0, AreReadyInputs-++ code first last xs ys p.1 q)

pub IsBounded-append :
    (start : ℕ) (code more : List Placed) (c : SymbolicComputation)
    → IsBounded start code c
    → IsBounded start (code ++ more) c
IsBounded-append start code more c (first, last, p, q, from, le, lt, inputs) = (
  first,
  last,
  p,
  q,
  from,
  le,
  omega (arith, length-append code more),
  AreReadyInputs-append code more c.inputs (omega arith) (omega arith) inputs,
)

pub AreReadyComputations-append :
    (code more : List Placed) (cs : List SymbolicComputation)
    → AreReadyComputations code cs
    → AreReadyComputations (code ++ more) cs
unfolding IsReadyComputation
AreReadyComputations-append code more [] h = tt
AreReadyComputations-append code more (c ∷ cs) h =
    ((IsBounded-append 0 code more c h.0.0, h.0.1), AreReadyComputations-append code more cs h.1)

pub AreReadyComputations-snoc :
    (code : List Placed) (cs : List SymbolicComputation) (c : SymbolicComputation)
    → AreReadyComputations code cs
    → IsReadyComputation code c
    → AreReadyComputations code (cs ++ (c ∷ []))
AreReadyComputations-snoc code [] c h ready = (ready, tt)
AreReadyComputations-snoc code (x ∷ cs) c h ready =
    (h.0, AreReadyComputations-snoc code cs c h.1 ready)
