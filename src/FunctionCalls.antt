-- ===== src/FunctionCalls.antt =====
-- runtime/RuntimeCommon.cpp: the globals that hand expressions over between functions,
-- `g_return_value` and `g_function_arguments`. An index is a `uint8_t`.
use sym_cc_modified.Base.{ℕ, ◌≡◌, refl, Option, none, ◌==◌, if◌then◌else◌, u8}

pub record CallState (E : Type 0) : Type 0 where
  pub return_value : Option E
  pub function_arguments : ℕ → Option E

module _ {E : Type 0} where
  pub set_return_expression : CallState E → Option E → CallState E
  set_return_expression state expr = record state { return_value = expr }

  pub get_return_expression : CallState E → CallState E × Option E
  get_return_expression state = (record state { return_value = none }, state.return_value)

  pub set_parameter_expression : CallState E → ℕ → Option E → CallState E
  set_parameter_expression state index expr = record state {
    function_arguments = λ i. if i == u8 index then expr else state.function_arguments i;
  }

  pub get_parameter_expression : CallState E → ℕ → Option E
  get_parameter_expression state index = state.function_arguments (u8 index)

  -- A parameter expression is found under the index, modulo 256, that it was set for, and setting
  -- it changes no other index; the return expression is found after parameters are set, reading
  -- it changes no parameter, and it is read only once.
  pub call_protocol :
      (state : CallState E) (i j : ℕ) (argument result : Option E)
      → (get_parameter_expression (set_parameter_expression state i argument) j
          ≡ (if u8 j == u8 i then argument else get_parameter_expression state j))
        × (get_parameter_expression (get_return_expression (set_return_expression state result)).0 j
            ≡ get_parameter_expression state j)
        × ((get_return_expression
              (set_parameter_expression (set_return_expression state result) i argument)).1
            ≡ result)
        × ((get_return_expression (get_return_expression (set_return_expression state result)).0).1
            ≡ none)
  unfolding set_return_expression get_return_expression set_parameter_expression
      get_parameter_expression
  call_protocol state i j argument result = (refl, refl, refl, refl)
