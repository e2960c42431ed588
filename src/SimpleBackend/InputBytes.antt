-- ===== src/SimpleBackend/InputBytes.antt =====
-- The variables of input bytes.
use sym_cc_modified.Base.{
  ℕ, zero, suc, ◌≡◌, ◌<◌, ◌≤◌, inl, inr, refl, sym, ap, ◌∙◌, true, false, Option, none, some, List,
  [], ◌∷◌, ◌++◌, arith, length, length-append, if◌then◌else◌, ltb, lt→ltb, Bool-cases,
}
use sym_cc_modified.SimpleBackend.{byte_at, resize, get_input_byte}

module _ {E : Type 0} where
  length-resize : (bytes : List (Option E)) (n : ℕ) → length (resize bytes n) ≡ n
  unfolding resize
  length-resize bytes zero = refl
  length-resize [] (suc n) = ap suc (length-resize [] n)
  length-resize (e ∷ bytes) (suc n) = ap suc (length-resize bytes n)

  byte_at-behind :
      (bytes : List (Option E)) (e : Option E) → byte_at (bytes ++ (e ∷ [])) (length bytes) ≡ e
  unfolding byte_at
  byte_at-behind [] e = refl
  byte_at-behind (x ∷ bytes) e = byte_at-behind bytes e

  byte_at-before :
      (bytes more : List (Option E)) (i : ℕ)
      → i < length bytes
      → byte_at (bytes ++ more) i ≡ byte_at bytes i
  unfolding byte_at
  byte_at-before [] more i h = absurd (omega arith)
  byte_at-before (x ∷ bytes) more zero h = refl
  byte_at-before (x ∷ bytes) more (suc i) h = byte_at-before bytes more i (omega arith)

  byte_at-resize :
      (bytes : List (Option E)) (n i : ℕ)
      → i < n
      → byte_at (resize bytes n) i ≡ (if ltb i (length bytes) then byte_at bytes i else none)
  unfolding byte_at resize
  byte_at-resize bytes zero i h = absurd (omega arith)
  byte_at-resize [] (suc n) zero h = refl
  byte_at-resize [] (suc n) (suc i) h = byte_at-resize [] n i (omega arith) ∙ ground arith
  byte_at-resize (e ∷ bytes) (suc n) zero h = ground arith
  byte_at-resize (e ∷ bytes) (suc n) (suc i) h =
      byte_at-resize bytes n i (omega arith) ∙ ground arith

module _ {E : Type 0} (build_variable : ℕ → E) (bytes : List (Option E)) where
  after : ℕ → List (Option E)
  after offset = (get_input_byte build_variable bytes offset).0

  -- Asking for an input byte a second time gives the expression of the first time and changes
  -- nothing.
  pub get_input_byte_twice :
      (offset : ℕ)
      → get_input_byte build_variable (get_input_byte build_variable bytes offset).0 offset
        ≡ get_input_byte build_variable bytes offset
  unfolding get_input_byte
  get_input_byte_twice offset = elim (Bool-cases (ltb offset (length bytes))) [
    | inl known ↦ rw (known, known)
    | inr new ↦
        let added : List (Option E) =
          resize bytes offset ++ (some (build_variable (length bytes)) ∷ []) in
        let longer : ltb offset (length added) ≡ true = lt→ltb offset (length added) (
          omega (
            arith,
            length-append (resize bytes offset) (some (build_variable (length bytes)) ∷ []),
            length-resize bytes offset,
          )) in
        let there : byte_at added offset ≡ some (build_variable (length bytes)) =
          ap (byte_at added) (sym (length-resize bytes offset))
          ∙ byte_at-behind (resize bytes offset) _ in
        rw (new, longer, there)
  ]

  -- Where the first byte that is asked for lies behind the known ones with a gap, its variable is
  -- named by the number of known bytes and not by its offset, and a byte of the gap that is asked
  -- for afterwards has the null expression.
  pub get_input_byte_gap :
      (offset between : ℕ)
      → length bytes ≤ between
      → between < offset
      → ((get_input_byte build_variable bytes offset).1 ≡ some (build_variable (length bytes)))
        × ((get_input_byte build_variable (get_input_byte build_variable bytes offset).0 between).1
            ≡ none)
  unfolding get_input_byte
  get_input_byte_gap offset between p q =
      let new : ltb offset (length bytes) ≡ false = ground arith in
      let gap : ltb between (length bytes) ≡ false = ground arith in
      let added : List (Option E) =
        resize bytes offset ++ (some (build_variable (length bytes)) ∷ []) in
      let known : ltb between (length added) ≡ true = lt→ltb between (length added) (
        omega (
          arith,
          length-append (resize bytes offset) (some (build_variable (length bytes)) ∷ []),
          length-resize bytes offset,
        )) in
      rw (new, known)
        (
          refl,
          byte_at-before (resize bytes offset) _ between (omega (arith, length-resize bytes offset))
              ∙ byte_at-resize bytes offset between q
              ∙ rw gap,
        )
