-- ===== src/Memory/Access.antt =====
-- Reads and writes of whole expressions.
use sym_cc_modified.Base.{
  ℕ, zero, suc, ◌+◌, ◌/◌, ◌%◌, ◌^◌, ◌≡◌, inl, inr, refl, sym, ap, ap₂, ◌∙◌, Bool, true, false,
  Option, none, some, List, [], ◌∷◌, ◌++◌, reverse-append, append_assoc, append-nil, add-zero,
  subst, subst₂, Option-cases, ◌==◌, arith, ◌<◌, ◌≤◌, word_size, Bool-cases, ==_ne, length, take,
  drop,
}
use sym_cc_modified.Builder.{Builder, Meaning}
use sym_cc_modified.Bytes.{to_bytes}
use sym_cc_modified.Bytes.Slices.{bytes_of_width, bytes-concat_helper}
use sym_cc_modified.Aggregate.Extraction.{HasBytes, in_order}
use sym_cc_modified.Shadow.{Pages, ReadIterator, read_begin, read_next}
use sym_cc_modified.Shadow.Pages.{shadow_at}
use sym_cc_modified.Shadow.Reading.{
  Reads, read_begin-Reads, read_next-Reads, read_value_lem, Reads-keep,
}
use sym_cc_modified.Shadow.Ranges.Fill.{IsConcrete}
use sym_cc_modified.Memory.{is_concrete, non_null_value, append_byte, accumulate, read_memory}
use sym_cc_modified.Memory.Moves.{is_concrete_iff}

module _ {E : Type 0} {b : Builder E} (m : Meaning b) (memory : ℕ → ℕ) where
  -- The shadow holds byte expressions only, as `ReadShadowIterator::operator*` asserts.
  abbrev pub IsByteShadow : Pages E → Type 0
  IsByteShadow pages = (c : ℕ) (e : E) → shadow_at pages c ≡ some e → b.bits_helper e ≡ 8

  value_or_concrete : Option E → ℕ → ℕ
  value_or_concrete none c = memory c % 256
  value_or_concrete (some e) c = m.value e

  -- The value that the program's byte has under the assignment.
  pub byte_value : Pages E → ℕ → ℕ
  unfolding value_or_concrete
  byte_value pages c = value_or_concrete (shadow_at pages c) c

  -- The values of `n` bytes from `a`, in the order of their addresses.
  pub byte_values : Pages E → ℕ → ℕ → List ℕ
  byte_values pages a zero = []
  byte_values pages a (suc n) = byte_value pages a ∷ byte_values pages (a + 1) n

  pub one_byte : (e : E) → b.bits_helper e ≡ 8 → HasBytes m e 1 (m.value e ∷ [])
  unfolding to_bytes
  one_byte e w =
      let fits : m.value e < 2 ^ 8 = subst (λ t. m.value e < 2 ^ t) w (m.value-lt e) in
      let low : m.value e / 1 % 256 ≡ m.value e = omega arith in
      record { width = w; content = bytes_of_width m e 1 w ∙ ap (λ v. v ∷ []) low }

  concrete_byte : (v : ℕ) → HasBytes m (b.build_integer v 8) 1 (v % 256 ∷ [])
  concrete_byte v =
      let h = one_byte (b.build_integer v 8) (m.bits-integer v 8) in
      record { width = h.width; content = h.content ∙ ap (λ t. t ∷ []) (m.value-integer v 8) }

  non_null_value-HasBytes :
      (pages : Pages E) (it : ReadIterator) (a lo hi : ℕ)
      → IsByteShadow pages
      → Reads pages it a lo hi
      → lo ≤ a
      → a < hi
      → HasBytes m (non_null_value b memory pages it) 1 (byte_value pages a ∷ [])
  unfolding non_null_value byte_value
  non_null_value-HasBytes pages it a lo hi byte r p q = elim (Option-cases (shadow_at pages a)) [
    | inl concrete ↦
        rw (read_value_lem pages it a lo hi r p q, concrete, r.at) (concrete_byte (memory a))
    | inr (e, symbolic) ↦
        rw (read_value_lem pages it a lo hi r p q, symbolic) (one_byte e (byte a e symbolic))
  ]

  -- What has been read so far: nothing, or an expression of the bytes `xs` in the order asked for.
  Accumulated : Bool → Option E → ℕ → List ℕ → Type 0
  Accumulated little none i xs = (i ≡ 0) × (xs ≡ [])
  Accumulated little (some e) i xs = HasBytes m e i (in_order little xs)

  nothing : (little : Bool) → Accumulated little none 0 []
  unfolding Accumulated
  nothing little = (refl, refl)

  append_byte-HasBytes :
      (little : Bool) (result : Option E) (byte : E) (i : ℕ) (xs : List ℕ) (v : ℕ)
      → Accumulated little result i xs
      → HasBytes m byte 1 (v ∷ [])
      → HasBytes m
          (append_byte b memory little result byte)
          (i + 1)
          (in_order little (xs ++ (v ∷ [])))
  unfolding append_byte Accumulated
  append_byte-HasBytes true none byte i xs v (zero_i, nil) h = record {
    width = omega (arith, h.width);
    content = h.content ∙ rw nil;
  }
  append_byte-HasBytes false none byte i xs v (zero_i, nil) h = record {
    width = omega (arith, h.width);
    content = h.content ∙ rw nil;
  }
  append_byte-HasBytes true (some e) byte i xs v a h = record {
    width = omega (arith, a.width, h.width, m.bits-concat byte e);
    content =
        bytes-concat_helper m byte e 1 i h.width a.width
        ∙ ap₂ ◌++◌ h.content a.content
        ∙ sym (reverse-append xs (v ∷ []));
  }
  append_byte-HasBytes false (some e) byte i xs v a h = record {
    width = omega (arith, a.width, h.width, m.bits-concat e byte);
    content = bytes-concat_helper m e byte i 1 a.width h.width ∙ ap₂ ◌++◌ a.content h.content;
  }

  accumulate-Accumulated :
      (little : Bool) (n : ℕ) (pages : Pages E) (first : ReadIterator) (result : Option E) (a i : ℕ)
      (xs : List ℕ)
      → a + n < word_size
      → IsByteShadow pages
      → Reads pages first a a (a + n)
      → Accumulated little result i xs
      → Accumulated little
          (accumulate b memory little n pages first result)
          (i + n)
          (xs ++ byte_values pages a n)
  unfolding accumulate byte_values Accumulated
  accumulate-Accumulated little zero pages first result a i xs q byte r h =
      rw (add-zero, append-nil) h
  accumulate-Accumulated little (suc n) pages first result a i xs q byte r h =
      let new =
        append_byte-HasBytes little result (non_null_value b memory pages first) i xs
          (byte_value pages a) h
          (non_null_value-HasBytes pages first a a (a + suc n) byte r (omega arith)
            (omega arith)) in
      let reads : Reads pages (read_next pages first) (a + 1) (a + 1) (a + 1 + n) =
        Reads-keep (a + 1) (a + 1 + n) (omega arith) (omega arith) (λ c x y. refl)
          (read_next-Reads pages first a a (a + suc n) (omega arith) r) in
      let one_more : i + 1 + n ≡ i + suc n = omega arith in
      subst₂
        (Accumulated little (
          accumulate b memory little n pages (read_next pages first)
            (some (append_byte b memory little result (non_null_value b memory pages first)))))
        one_more (append_assoc xs (byte_value pages a ∷ []) (byte_values pages (a + 1) n))
        (accumulate-Accumulated little n pages (read_next pages first)
          (some (append_byte b memory little result (non_null_value b memory pages first))) (a + 1)
          (i + 1) (xs ++ (byte_value pages a ∷ [])) (omega arith) byte reads new)

  Accumulated-some :
      (little : Bool) (o : Option E) (n : ℕ) (xs : List ℕ)
      → 0 < n
      → Accumulated little o n xs
      → (r : E) × (o ≡ some r) × HasBytes m r n (in_order little xs)
  unfolding Accumulated
  Accumulated-some little none n xs pos h = absurd (omega (arith, h.0))
  Accumulated-some little (some e) n xs pos h = (e, refl, h)

  -- For a shadow of byte expressions and a region that has bytes and does not wrap around, a read
  -- of a concrete region gives the null expression, and any other read gives an expression of the
  -- region's bytes, symbolic or concrete, in the byte order asked for.
  pub read_memory_lem :
      (pages : Pages E) (a n : ℕ) (little : Bool)
      → 0 < n
      → a + n < word_size
      → IsByteShadow pages
      → (IsConcrete pages a n → read_memory b memory pages a n little ≡ some none)
        × (¬ IsConcrete pages a n
            → (r : E) × (read_memory b memory pages a n little ≡ some (some r))
              × HasBytes m r n (in_order little (byte_values pages a n)))
  unfolding read_memory
  read_memory_lem pages a n little pos q byte =
      let none_yet : 0 + n ≡ n = omega arith in
      let some_bytes : (n == 0) ≡ false = ==_ne n 0 (λ e. omega arith) in
      rw some_bytes (
        (λ h. rw ((is_concrete_iff pages a n q).1 h)),
        (λ h. elim (Bool-cases (is_concrete pages a n)) [
          | inl concrete ↦ absurd (h ((is_concrete_iff pages a n q).0 concrete))
          | inr symbolic ↦
              let found =
                Accumulated-some little
                  (accumulate b memory little n pages (read_begin pages a) none) n
                  (byte_values pages a n) pos
                  (subst
                    (λ t.
                      Accumulated little
                        (accumulate b memory little n pages (read_begin pages a) none) t
                        (byte_values pages a n))
                    none_yet
                    (accumulate-Accumulated little n pages (read_begin pages a) none a 0 [] q byte
                      (read_begin-Reads pages a a (a + n)) (nothing little))) in
              rw symbolic (found.0, ap some found.1, found.2)
        ]),
      )

  pub byte_value-some :
      (pages : Pages E) (c : ℕ) (e : E)
      → shadow_at pages c ≡ some e
      → byte_value pages c ≡ m.value e
  unfolding byte_value value_or_concrete
  byte_value-some pages c e h = rw h

  pub byte_values_of :
      (pages : Pages E) (a n : ℕ) (xs : List ℕ)
      → length xs ≡ n
      → ((i : ℕ) → i < n → byte_value pages (a + i) ∷ [] ≡ take 1 (drop i xs))
      → byte_values pages a n ≡ xs
  unfolding byte_values
  byte_values_of pages a zero [] l h = refl
  byte_values_of pages a zero (x ∷ xs) l h = absurd (omega arith)
  byte_values_of pages a (suc n) [] l h = absurd (omega arith)
  byte_values_of pages a (suc n) (x ∷ xs) l h =
      let here : a + 0 ≡ a = omega arith in
      let first : byte_value pages a ∷ [] ≡ x ∷ [] =
        subst (λ t. byte_value pages t ∷ [] ≡ x ∷ []) here (h 0 (omega arith)) in
      let rest : byte_values pages (a + 1) n ≡ xs =
        byte_values_of pages (a + 1) n xs (omega arith) (λ i p.
          let there : a + suc i ≡ a + 1 + i = omega arith in
          subst (λ t. byte_value pages t ∷ [] ≡ take 1 (drop i xs)) there
            (h (suc i) (omega arith))) in
      cc
