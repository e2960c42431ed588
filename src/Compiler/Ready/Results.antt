-- ===== src/Compiler/Ready/Results.antt =====
-- compiler/Symbolizer.h: calls that may be left out, and states that may not be reached.
use sym_cc_modified.Base.{
  ℕ, ◌≤◌, ◌<◌, inl, inr, refl, Option, none, some, List, [], ◌∷◌, ◌++◌, length, arith, ◌>>=◌,
  Bool-cases,
}
use sym_cc_modified.Compiler.Runtime.{SymFn}
use sym_cc_modified.Compiler.Ir.{Value, Operand, call, Point, Placed}
use sym_cc_modified.Compiler.Symbolizer.{
  Symbolizer, SymbolicComputation, Arg, symbolic, all_concrete, build_runtime_call,
  build_and_register, register_optional,
}
use sym_cc_modified.Compiler.Ready.{
  IsExpression, IsBounded, IsNonempty, IsReadyComputation, IsReady, operand_at-append,
  operand_at-last,
}
use sym_cc_modified.Compiler.Ready.Steps.{
  IsOptionalExpression, register_symbolic_computation-IsReady, force_build_runtime_call-IsBounded,
  force_build_runtime_call-IsReady,
}

-- A computation that has a symbolic argument, and is made from it where that is not concrete.
abbrev pub IsReadyOption : ℕ → Symbolizer × Option SymbolicComputation → Type 0
IsReadyOption start (s, none) = IsReady s
IsReadyOption start (s, some c) = IsReady s × IsBounded start s.code c × IsNonempty c.inputs

pub build_runtime_call-IsReadyOption :
    (s : Symbolizer) (point : Point) (function : SymFn) (v : Value) (args : List Arg)
    → IsReady s
    → IsReadyOption (length s.code) (build_runtime_call s point function (symbolic v ∷ args))
unfolding build_runtime_call
build_runtime_call-IsReadyOption s point function v args h =
    elim (Bool-cases (all_concrete s (symbolic v ∷ args))) [
      | inl all ↦ rw all h
      | inr some_symbolic ↦ rw some_symbolic (
        force_build_runtime_call-IsReady s point function (symbolic v ∷ args) h,
        force_build_runtime_call-IsBounded s point function (symbolic v ∷ args) h,
        tt,
      )
    ]

pub IsBounded-IsReadyComputation :
    (start : ℕ) (code : List Placed) (c : SymbolicComputation)
    → IsBounded start code c
    → IsNonempty c.inputs
    → IsReadyComputation code c
unfolding IsReadyComputation
IsBounded-IsReadyComputation start code c (f, l, p, q, from, le, lt, inputs) more =
    ((f, l, p, q, omega arith, le, lt, inputs), more)

register_optional-IsReady :
    (start : ℕ) (built : Symbolizer × Option SymbolicComputation) (target : Option ℕ)
    → IsReadyOption start built
    → IsReady (register_optional built.0 built.1 target)
unfolding register_optional
register_optional-IsReady start (s, none) target h = h
register_optional-IsReady start (s, some c) target (h, bounded, more) =
    register_symbolic_computation-IsReady s c target h
      (IsBounded-IsReadyComputation start s.code c bounded more)

pub build_and_register-IsReady :
    (s : Symbolizer) (point : Point) (function : SymFn) (v : Value) (args : List Arg)
    (target : Option ℕ)
    → IsReady s
    → IsReady (build_and_register s point function (symbolic v ∷ args) target)
unfolding build_and_register
build_and_register-IsReady s point function v args target h =
    register_optional-IsReady (length s.code)
      (build_runtime_call s point function (symbolic v ∷ args)) target
      (build_runtime_call-IsReadyOption s point function v args h)

-- The state that is reached, where one is.
abbrev pub IsReadySome : Option Symbolizer → Type 0
IsReadySome none = Unit
IsReadySome (some s) = IsReady s

pub IsReadySome-bind :
    {A : Type 0} (found : Option A) (next : A → Option Symbolizer)
    → ((a : A) → IsReadySome (next a))
    → IsReadySome (found >>= next)
IsReadySome-bind none next h = tt
IsReadySome-bind (some a) next h = h a

pub IsReadySome-after :
    (reached : Option Symbolizer) (next : Symbolizer → Option Symbolizer)
    → IsReadySome reached
    → ((s : Symbolizer) → IsReady s → IsReadySome (next s))
    → IsReadySome (reached >>= next)
IsReadySome-after none next h step = tt
IsReadySome-after (some s) next h step = step s h

-- A computation with one input, which is the first operand of a call.
pub IsBounded-one_input :
    (code more : List Placed) (point : Point) (function : SymFn) (o : Operand)
    (operands : List Operand) (v : Value) (first last : ℕ)
    → first ≤ length code
    → length code ≤ last
    → last
      < length (
          (code ++ (record { point = point; emitted = call function (o ∷ operands) } ∷ [])) ++ more)
    → IsExpression (length code) o
    → IsReadyComputation
        ((code ++ (record { point = point; emitted = call function (o ∷ operands) } ∷ [])) ++ more)
        (record {
          first_instruction = some first;
          last_instruction = some last;
          inputs = record { concrete_value = v; operand_index = 0; user = length code } ∷ [];
        })
unfolding IsReadyComputation
IsBounded-one_input code more point function o operands v first last p q r ok = (
  (
    first,
    last,
    refl,
    refl,
    omega arith,
    omega arith,
    r,
    (
      (
        p,
        q,
        o,
        operand_at-append
            (code ++ (record { point = point; emitted = call function (o ∷ operands) } ∷ [])) more
            (length code) 0 (operand_at-last code point function (o ∷ operands) 0),
        ok,
      ),
      tt,
    ),
  ),
  tt,
)

-- The code for a value that has an expression.
pub IsReadySome-known :
    (n : ℕ) (s : Symbolizer) (expr : Option Operand) (next : Operand → Option Symbolizer)
    → IsReady s
    → IsOptionalExpression n expr
    → ((o : Operand) → IsExpression n o → IsReadySome (next o))
    → IsReadySome (elim expr [ none ↦ some s | some o ↦ next o ])
IsReadySome-known n s none next h ok step = h
IsReadySome-known n s (some o) next h ok step = step o ok
