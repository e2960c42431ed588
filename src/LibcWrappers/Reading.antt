-- ===== src/LibcWrappers/Reading.antt =====
-- Data that arrives from the input file and from others.
use sym_cc_modified.Base.{
  ℕ, ◌+◌, ◌-◌, ◌≡◌, ◌<◌, ◌≤◌, inl, inr, refl, sym, ap, ◌∙◌, Bool, true, false, Option, none, some,
  arith, if◌then◌else◌, word_size, add64, Bool-cases, ltb, subst,
}
use sym_cc_modified.Builder.{Builder}
use sym_cc_modified.Shadow.Pages.{shadow_at, Extends-shadow_at}
use sym_cc_modified.Shadow.Ranges.{fill, generate}
use sym_cc_modified.Shadow.Ranges.Copy.{is_within}
use sym_cc_modified.Shadow.Ranges.Fill.{generate_view, fill_view}
use sym_cc_modified.Shadow.Asserted.{HoldsBytes, IsByte, Extends-HoldsBytes, fill-HoldsBytes}
use sym_cc_modified.Memory.{int_limit, is_concrete, write_range}
use sym_cc_modified.Memory.Moves.{is_concrete_iff, write_range-IsValid}
use sym_cc_modified.Memory.Asserted.{checked_is_concrete_eq}
use sym_cc_modified.Memory.Symbolic.{make_symbolic_view}
use sym_cc_modified.LibcWrappers.{
  LibcState, is_input, set_return, parameter, concretize, try_alternative, receive, read, mmap64,
}

module _ {E : Type 0} where
  -- Two states that agree on the shadow and on the input.
  record Same (state later : LibcState E) : Type 0 where
    pages : later.pages ≡ state.pages
    file : later.input_file_descriptor ≡ state.input_file_descriptor
    offset : later.input_offset ≡ state.input_offset

  try_alternative-Same :
      (b : Builder E) (state : LibcState E) (value bits : ℕ) (expr : Option E)
      → Same state (try_alternative b state value bits expr)
  unfolding try_alternative
  try_alternative-Same b state value bits none = record { pages = refl; file = refl; offset = refl }
  try_alternative-Same b state value bits (some expr) = record {
    pages = refl;
    file = refl;
    offset = refl;
  }

  set_return-Same : (state : LibcState E) (expr : Option E) → Same state (set_return state expr)
  unfolding set_return
  set_return-Same state expr = record { pages = refl; file = refl; offset = refl }

  Same-trans : {x y z : LibcState E} → Same x y → Same y z → Same x z
  Same-trans p q = record {
    pages = q.pages ∙ p.pages;
    file = q.file ∙ p.file;
    offset = q.offset ∙ p.offset;
  }

  is_input-Same :
      {x y : LibcState E} (fildes : Option ℕ) → Same x y → is_input y fildes ≡ is_input x fildes
  unfolding is_input
  is_input-Same fildes p = rw p.file

module _ {E : Type 0} (b : Builder E) (get_input_byte : ℕ → ℕ → Option E) (memory : ℕ → ℕ) where
  -- The shadow of the buffer after `n` bytes of data: input bytes, or null.
  abbrev pub received : LibcState E → Option ℕ → ℕ → ℕ → ℕ → Option E
  received state fildes buf n c =
      if is_within buf n c
      then (if is_input state fildes
          then get_input_byte (add64 state.input_offset (c - buf)) (memory (add64 buf (c - buf)))
          else none)
      else shadow_at state.pages c

  abbrev pub advanced : LibcState E → Option ℕ → ℕ → ℕ
  advanced state fildes n =
      if is_input state fildes then add64 state.input_offset n else state.input_offset

  -- The state after `n` bytes of data arrived.
  pub record Received (state : LibcState E) (fildes : Option ℕ) (buf n : ℕ) (later : LibcState E)
      : Type 0 where
    pub view : (c : ℕ) → shadow_at later.pages c ≡ received state fildes buf n c
    pub offset : later.input_offset ≡ advanced state fildes n
    pub file : later.input_file_descriptor ≡ state.input_file_descriptor
    pub byte : HoldsBytes b later.pages

  concretize_lem :
      (state : LibcState E) (fildes : Option ℕ) (buf n : ℕ)
      → HoldsBytes b state.pages
      → is_input state fildes ≡ false
      → buf + n < word_size
      → (later : LibcState E) × (concretize b get_input_byte memory state buf n ≡ some later)
        × Received state fildes buf n later
  unfolding concretize
  concretize_lem state fildes buf n byte other q =
      elim (Bool-cases (is_concrete state.pages buf n)) [
        | inl fast ↦
            let concrete = (is_concrete_iff state.pages buf n q).0 fast in
            (
              state,
              rw (checked_is_concrete_eq b state.pages buf n byte, fast) refl,
              record {
                view = λ c. rw other (elim (Bool-cases (is_within buf n c)) [
                  | inl inside ↦ rw (inside, concrete c (ground arith) (ground arith))
                  | inr outside ↦ rw outside
                ]);
                offset = rw other;
                file = refl;
                byte = byte;
              },
            )
        | inr slow ↦
            let (valid, more) = write_range-IsValid state.pages buf n in
            (
              record state {
                pages =
                    fill none n (write_range state.pages buf n).0 (write_range state.pages buf n).1;
              },
              rw (checked_is_concrete_eq b state.pages buf n byte, slow) refl,
              record {
                view = λ c.
                    fill_view none n (write_range state.pages buf n).0
                      (write_range state.pages buf n).1 buf q valid c
                    ∙ rw (other, Extends-shadow_at more c);
                offset = rw other;
                file = refl;
                byte =
                    fill-HoldsBytes b none n (write_range state.pages buf n).0
                      (write_range state.pages buf n).1 (λ e h. absurd (ground arith))
                      (Extends-HoldsBytes b more byte);
              },
            )
      ]

  receive_lem :
      (state : LibcState E) (fildes : Option ℕ) (buf n : ℕ)
      → ((i v : ℕ) → IsByte b (get_input_byte i v))
      → HoldsBytes b state.pages
      → buf + n < word_size
      → n < int_limit
      → (later : LibcState E) × (receive b get_input_byte memory state fildes buf n ≡ some later)
        × Received state fildes buf n later
  unfolding receive
  receive_lem state fildes buf n bytes byte q small = elim (Bool-cases (is_input state fildes)) [
    | inl input ↦
        let (pages, made, view, still) =
          make_symbolic_view b get_input_byte memory state.pages buf n state.input_offset q small in
        (
          record state { pages = pages; input_offset = add64 state.input_offset n },
          rw (input, made) refl,
          record {
            view = λ c. view c ∙ rw input;
            offset = rw input;
            file = refl;
            byte = still bytes byte;
          },
        )
    | inr other ↦
        let (later, done, state') = concretize_lem state fildes buf n byte other q in
        (later, rw other done, state')
  ]

  -- If the expressions of the shadow and of input bytes all represent bytes, a read of `n` bytes,
  -- less than 2 ^ 31, into a buffer that does not wrap around succeeds, gives byte `i` of the
  -- buffer the expression of the input byte at the offset plus `i`, if the file is the input, and
  -- no expression otherwise, changes the shadow of no other byte, advances the offset by `n` if
  -- the file is the input and not otherwise, keeps the input's descriptor, and leaves a shadow
  -- whose expressions all represent bytes.
  pub read_lem :
      (state : LibcState E) (fildes : Option ℕ) (buf nbyte n : ℕ)
      → ((i v : ℕ) → IsByte b (get_input_byte i v))
      → HoldsBytes b state.pages
      → buf + n < word_size
      → n < int_limit
      → (later : LibcState E) × (read b get_input_byte memory state fildes buf nbyte (some n)
          ≡ some later)
        × Received state fildes buf n later
  unfolding read
  read_lem state fildes buf nbyte n bytes byte q small =
      let once = try_alternative-Same b state buf 64 (parameter state 1) in
      let tried : LibcState E =
        try_alternative b (try_alternative b state buf 64 (parameter state 1)) nbyte 64
          (parameter state 2) in
      let returned : LibcState E = set_return tried none in
      let same : Same state returned = Same-trans once (
        Same-trans
          (try_alternative-Same b (try_alternative b state buf 64 (parameter state 1)) nbyte 64
            (parameter state 2))
          (set_return-Same tried none)) in
      let (later, done, got) =
        receive_lem returned fildes buf n bytes (subst (HoldsBytes b) (sym same.pages) byte) q
          small in
      (
        later,
        done,
        record {
          view = λ c. got.view c ∙ rw (is_input-Same fildes same, same.offset, same.pages);
          offset = got.offset ∙ rw (is_input-Same fildes same, same.offset);
          file = got.file ∙ same.file;
          byte = got.byte;
        },
      )

  Received-is_input :
      (state : LibcState E) (fildes : Option ℕ) (buf n : ℕ) (later : LibcState E)
      → Received state fildes buf n later
      → is_input later fildes ≡ is_input state fildes
  unfolding is_input
  Received-is_input state fildes buf n later got = rw got.file

  -- If the expressions of the shadow and of input bytes all represent bytes, two reads from one
  -- file into adjacent parts of a buffer that does not wrap around, of less than 2 ^ 31 bytes
  -- together, and one read of all the data all succeed, and the two reads leave the shadow of
  -- every byte and the input offset as the one does.
  pub read_twice :
      (state : LibcState E) (fildes : Option ℕ) (buf nbyte n nbyte' k nbyte'' : ℕ)
      → ((i v : ℕ) → IsByte b (get_input_byte i v))
      → HoldsBytes b state.pages
      → buf + (n + k) < word_size
      → n + k < int_limit
      → (first : LibcState E) × (twice : LibcState E) × (once : LibcState E) × (read b
            get_input_byte memory state fildes buf nbyte
            (some n)
          ≡ some first)
        × (read b get_input_byte memory first fildes (buf + n) nbyte' (some k) ≡ some twice)
        × (read b get_input_byte memory state fildes buf nbyte'' (some (n + k)) ≡ some once)
        × ((c : ℕ) → shadow_at twice.pages c ≡ shadow_at once.pages c)
        × (twice.input_offset ≡ once.input_offset)
  read_twice state fildes buf nbyte n nbyte' k nbyte'' bytes byte q small =
      let (first, read_first, here) =
        read_lem state fildes buf nbyte n bytes byte (omega arith) (omega arith) in
      let (twice, read_second, next) =
        read_lem first fildes (buf + n) nbyte' k bytes here.byte (omega arith) (omega arith) in
      let (once, read_all, whole) = read_lem state fildes buf nbyte'' (n + k) bytes byte q small in
      let still = Received-is_input state fildes buf n first here in
      (
        first,
        twice,
        once,
        read_first,
        read_second,
        read_all,
        (λ c.
            next.view c
            ∙ rw (still, here.offset, here.view c) (join (is_input state fildes) c)
            ∙ sym (whole.view c)),
        next.offset ∙ rw (still, here.offset) (total (is_input state fildes)) ∙ sym whole.offset,
      )
    where
      total :
          (input : Bool)
          → (if input
              then add64 (if input then add64 state.input_offset n else state.input_offset) k
              else (if input then add64 state.input_offset n else state.input_offset))
            ≡ (if input then add64 state.input_offset (n + k) else state.input_offset)
      total true = omega arith
      total false = refl

      place :
          (c : ℕ)
          → buf + n ≤ c
          → add64 (add64 state.input_offset n) (c - (buf + n)) ≡ add64 state.input_offset (c - buf)
      place c h = omega arith

      address : (c : ℕ) → buf + n ≤ c → add64 (buf + n) (c - (buf + n)) ≡ add64 buf (c - buf)
      address c h = omega arith

      join :
          (input : Bool) (c : ℕ)
          → (if is_within (buf + n) k c
              then (if input
                  then get_input_byte
                      (add64
                        (if input then add64 state.input_offset n else state.input_offset)
                        (c - (buf + n)))
                      (memory (add64 (buf + n) (c - (buf + n))))
                  else none)
              else (if is_within buf n c
                  then (if input
                      then get_input_byte
                          (add64 state.input_offset (c - buf))
                          (memory (add64 buf (c - buf)))
                      else none)
                  else shadow_at state.pages c))
            ≡ (if is_within buf (n + k) c
                then (if input
                    then get_input_byte
                        (add64 state.input_offset (c - buf))
                        (memory (add64 buf (c - buf)))
                    else none)
                else shadow_at state.pages c)
      join input c = elim (Bool-cases (is_within (buf + n) k c)) [
        | inl behind ↦
            let all : is_within buf (n + k) c ≡ true = ground arith in
            rw (behind, all) (named input (ground arith))
        | inr before ↦ elim (Bool-cases (is_within buf n c)) [
          | inl inside ↦
              let all : is_within buf (n + k) c ≡ true = ground arith in rw (before, inside, all)
          | inr outside ↦
              let none_of : is_within buf (n + k) c ≡ false = ground arith in
              rw (before, outside, none_of)
        ]
      ]
        where
          named :
              (input : Bool)
              → buf + n ≤ c
              → (if input
                  then get_input_byte
                      (add64
                        (if input then add64 state.input_offset n else state.input_offset)
                        (c - (buf + n)))
                      (memory (add64 (buf + n) (c - (buf + n))))
                  else none)
                ≡ (if input
                    then get_input_byte
                        (add64 state.input_offset (c - buf))
                        (memory (add64 buf (c - buf)))
                    else none)
          named true h = rw (place c h, address c h)
          named false h = refl

  -- A mapping of the input file, or an anonymous one where no input is open, of less than 2 ^ 31
  -- bytes that does not wrap around succeeds, gives every byte the expression of one and the same
  -- input byte, the one at the end of the mapping, `off + len`, with the value of the byte,
  -- changes the shadow of no other byte, and sets the input offset to `off + len`.
  pub mmap64_lem :
      (state : LibcState E) (len : ℕ) (fildes : Option ℕ) (off result : ℕ)
      → is_input state fildes ≡ true
      → result + len < word_size
      → len < int_limit
      → (later : LibcState E) × (mmap64 b get_input_byte memory state len fildes off (some result)
          ≡ some later)
        × ((c : ℕ)
            → shadow_at later.pages c ≡ (
                if is_within result len c
                then get_input_byte (add64 off len) (memory (add64 result (c - result)))
                else shadow_at state.pages c))
        × (later.input_offset ≡ add64 off len)
  unfolding mmap64
  mmap64_lem state len fildes off result input q small =
      let (valid, more) = write_range-IsValid state.pages result len in
      let counted : ltb len int_limit ≡ true = ground arith in
      let mapped : LibcState E = record (set_return state none) {
        input_offset = add64 off len;
        pages =
            generate (λ i. get_input_byte (add64 off len) (memory (add64 result i))) len 0
              (write_range state.pages result len).0 (write_range state.pages result len).1;
      } in
      let same = try_alternative-Same b mapped len 64 (parameter state 1) in
      (
        try_alternative b mapped len 64 (parameter state 1),
        rw (input, counted) refl,
        (λ c.
            let from_zero : 0 + (c - result) ≡ c - result = omega arith in
            ap (λ p. shadow_at p c) same.pages
            ∙ generate_view (λ i. get_input_byte (add64 off len) (memory (add64 result i))) len 0
                (write_range state.pages result len).0 (write_range state.pages result len).1 result
                q valid c
            ∙ rw (Extends-shadow_at more c, from_zero)),
        same.offset,
      )
