-- ===== src/Compiler/Ready/Steps.antt =====
-- compiler/Symbolizer.h: the steps that all the visitors are made of keep the state ready.
use sym_cc_modified.Base.{
  ℕ, suc, ◌+◌, ◌≡◌, inl, inr, refl, sym, Option, none, some, List, [], ◌∷◌, ◌++◌, length,
  length-append, get_elem?, arith, ◌==◌, Bool-cases, subst,
}
use sym_cc_modified.Compiler.Runtime.{SymFn}
use sym_cc_modified.Compiler.Ir.{
  Value, local, constant, constant_int, constant_null, undef, constant_struct, element, Operand,
  null_expression, Emitted, call, Point, Placed,
}
use sym_cc_modified.Compiler.Symbolizer.{
  operand_at, Symbolizer, SymbolicComputation, Arg, symbolic, plain, merge, emit, set_expression,
  get_symbolic_expression, get_symbolic_expression_or_null, find_expression, argument_operand,
  argument_operands, inputs_from, force_build_runtime_call, register_symbolic_computation,
  result_of,
}
use sym_cc_modified.Compiler.Ready.{
  IsExpression, AreReadyInputs, IsBounded, IsReadyComputation, AreExpressions, IsReady,
  AreExpressions-le, operand_at-last, AreReadyInputs-append, AreReadyInputs-++,
  AreReadyInputs-widen, AreReadyComputations-append, AreReadyComputations-snoc,
}

pub emit-IsReady :
    (s : Symbolizer) (point : Point) (emitted : Emitted)
    → IsReady s
    → IsReady (emit s point emitted).0
unfolding emit IsReady
emit-IsReady s point emitted h = (
  AreExpressions-le s.symbolic_expressions
      (omega (arith, length-append s.code (record { point = point; emitted = emitted } ∷ []))) h.0,
  AreReadyComputations-append s.code _ s.expression_uses h.1,
)

abbrev pub IsOptionalExpression : ℕ → Option Operand → Type 0
IsOptionalExpression n none = Unit
IsOptionalExpression n (some o) = IsExpression n o

pub set_expression-IsReady :
    (s : Symbolizer) (id : ℕ) (expr : Option Operand)
    → IsReady s
    → IsOptionalExpression (length s.code) expr
    → IsReady (set_expression s id expr)
unfolding set_expression IsReady
set_expression-IsReady s id none h ok = h
set_expression-IsReady s id (some o) h ok = ((ok, h.0), h.1)

find_expression-IsOptionalExpression :
    (n : ℕ) (entries : List (ℕ × Operand)) (id : ℕ)
    → AreExpressions n entries
    → IsOptionalExpression n (find_expression entries id)
unfolding find_expression
find_expression-IsOptionalExpression n [] id h = tt
find_expression-IsOptionalExpression n ((key, o) ∷ entries) id h = elim (Bool-cases (key == id)) [
  | inl same ↦ rw same h.0
  | inr differ ↦ rw differ (find_expression-IsOptionalExpression n entries id h.1)
]

pub get_symbolic_expression-IsOptionalExpression :
    (s : Symbolizer) (v : Value)
    → IsReady s
    → IsOptionalExpression (length s.code) (get_symbolic_expression s v)
unfolding get_symbolic_expression IsReady
get_symbolic_expression-IsOptionalExpression s (local id type) h =
    find_expression-IsOptionalExpression (length s.code) s.symbolic_expressions id h.0
get_symbolic_expression-IsOptionalExpression s (constant type address) h = tt
get_symbolic_expression-IsOptionalExpression s (constant_int bits value) h = tt
get_symbolic_expression-IsOptionalExpression s constant_null h = tt
get_symbolic_expression-IsOptionalExpression s (undef type) h = tt
get_symbolic_expression-IsOptionalExpression s (constant_struct type elements) h = tt
get_symbolic_expression-IsOptionalExpression s (element v i type) h = tt

chosen-IsExpression :
    (n : ℕ) (expr : Option Operand)
    → IsOptionalExpression n expr
    → IsExpression n (elim expr [ none ↦ null_expression | some o ↦ o ])
unfolding IsExpression
chosen-IsExpression n none ok = tt
chosen-IsExpression n (some o) ok = ok

pub get_symbolic_expression_or_null-IsExpression :
    (s : Symbolizer) (v : Value)
    → IsReady s
    → IsExpression (length s.code) (get_symbolic_expression_or_null s v)
unfolding get_symbolic_expression_or_null
get_symbolic_expression_or_null-IsExpression s v h =
    chosen-IsExpression (length s.code) (get_symbolic_expression s v)
      (get_symbolic_expression-IsOptionalExpression s v h)

push_use-IsReady :
    (s : Symbolizer) (c : SymbolicComputation)
    → IsReady s
    → IsReadyComputation s.code c
    → IsReady (record s { expression_uses = s.expression_uses ++ (c ∷ []) })
unfolding IsReady
push_use-IsReady s c h ready = (h.0, AreReadyComputations-snoc s.code s.expression_uses c h.1 ready)

set_expression-code :
    (s : Symbolizer) (id : ℕ) (expr : Option Operand) → (set_expression s id expr).code ≡ s.code
unfolding set_expression
set_expression-code s id none = refl
set_expression-code s id (some o) = refl

pub register_symbolic_computation-IsReady :
    (s : Symbolizer) (c : SymbolicComputation) (target : Option ℕ)
    → IsReady s
    → IsReadyComputation s.code c
    → IsReady (register_symbolic_computation s c target)
unfolding register_symbolic_computation result_of IsExpression IsReadyComputation
register_symbolic_computation-IsReady s c none h ready = push_use-IsReady s c h ready
register_symbolic_computation-IsReady s c (some id) h ready =
    let (first, last, p, q, from, le, lt, inputs) = ready.0 in
    push_use-IsReady (set_expression s id (result_of c.last_instruction)) c
      (set_expression-IsReady s id (result_of c.last_instruction) h
        (subst (λ o. IsOptionalExpression (length s.code) (result_of o)) (sym q) lt))
      (subst (λ code. IsReadyComputation code c)
        (sym (set_expression-code s id (result_of c.last_instruction))) ready)

-- The inputs among the arguments of the call that is the last instruction.
AreReadyInputs-inputs_from :
    (s : Symbolizer) (code : List Placed) (args : List Arg) (i : ℕ)
    → IsReady s
    → ((j k : ℕ)
        → k ≡ i + j
        → operand_at code (length s.code) k ≡ get_elem? (argument_operands s args) j)
    → AreReadyInputs code (length s.code) (length s.code) (inputs_from args i (length s.code))
unfolding inputs_from argument_operands argument_operand
AreReadyInputs-inputs_from s code [] i h at = tt
AreReadyInputs-inputs_from s code (symbolic v ∷ args) i h at = (
  (
    omega arith,
    omega arith,
    get_symbolic_expression_or_null s v,
    at 0 i (omega arith),
    get_symbolic_expression_or_null-IsExpression s v h,
  ),
  AreReadyInputs-inputs_from s code args (i + 1) h (λ j k e. at (suc j) k (omega arith)),
)
AreReadyInputs-inputs_from s code (plain o ∷ args) i h at =
    AreReadyInputs-inputs_from s code args (i + 1) h (λ j k e. at (suc j) k (omega arith))

pub force_build_runtime_call-IsBounded :
    (s : Symbolizer) (point : Point) (function : SymFn) (args : List Arg)
    → IsReady s
    → IsBounded
        (length s.code)
        (force_build_runtime_call s point function args).0.code
        (force_build_runtime_call s point function args).1
unfolding force_build_runtime_call emit
force_build_runtime_call-IsBounded s point function args h = (
  length s.code,
  length s.code,
  refl,
  refl,
  omega arith,
  omega arith,
  omega (
    arith,
    length-append s.code
        (record { point = point; emitted = call function (argument_operands s args) } ∷ []),
  ),
  AreReadyInputs-inputs_from s _ args 0 h (λ j k e.
      let same : k ≡ j = omega arith in
      rw same (operand_at-last s.code point function (argument_operands s args) j)),
)

pub force_build_runtime_call-IsReady :
    (s : Symbolizer) (point : Point) (function : SymFn) (args : List Arg)
    → IsReady s
    → IsReady (force_build_runtime_call s point function args).0
unfolding force_build_runtime_call
force_build_runtime_call-IsReady s point function args h = emit-IsReady s point _ h

-- The first and the last instruction of a computation that is merged with a later one.
pub merge-IsBounded :
    (start : ℕ) (code more : List Placed) (c d : SymbolicComputation)
    → IsBounded start code c
    → IsBounded (length code) (code ++ more) d
    → IsBounded start (code ++ more) (merge c d)
unfolding merge
merge-IsBounded start code more c d (f, l, p, q, from, le, lt, inputs)
      (f₁, l₁, p₁, q₁, from₁, le₁, lt₁, inputs₁) =
    (
      f,
      l₁,
      rw p refl,
      q₁,
      from,
      omega arith,
      lt₁,
      AreReadyInputs-++ (code ++ more) f l₁ c.inputs d.inputs
          (AreReadyInputs-append code more c.inputs (omega arith) (omega arith) inputs)
          (AreReadyInputs-widen (code ++ more) d.inputs (omega arith) (omega arith) inputs₁),
    )

-- A call that goes on with a computation.
pub force_build_runtime_call-merge :
    (s : Symbolizer) (point : Point) (function : SymFn) (args : List Arg) (start : ℕ)
    (c : SymbolicComputation)
    → IsReady s
    → IsBounded start s.code c
    → IsBounded start
        (force_build_runtime_call s point function args).0.code
        (merge c (force_build_runtime_call s point function args).1)
unfolding force_build_runtime_call emit
force_build_runtime_call-merge s point function args start c h bounded =
    merge-IsBounded start s.code _ c _ bounded
      (force_build_runtime_call-IsBounded s point function args h)
