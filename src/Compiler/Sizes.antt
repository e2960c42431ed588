-- ===== src/Compiler/Sizes.antt =====
-- compiler/Symbolizer.cpp: the number of bits of the expression for a concrete value.
use sym_cc_modified.Base.{
  ℕ, ◌%◌, ◌∙◌, sym, ap, ◌>>=◌, ◌+◌, ◌-◌, ◌*◌, ◌<◌, ◌≤◌, ◌≡◌, ◌≢◌, ◌⊎◌, inl, inr, refl, subst, Bool,
  true, false, ◌&&◌, Option, none, some, ◌==◌, ==_iff, ltb, leb, if◌then◌else◌, add64, sub64,
  word_size, Bool-cases, arith,
}
use sym_cc_modified.Compiler.Ir.{
  Ty, int_type, float_type, double_type, pointer_type, void_type, struct_type, array_type, Types,
  no_types, and_type, Value, DataLayout, ValueCode, null_pointer_code, bool_code, integer_code,
  integer128_code, float_code, address_code, zero_bytes_code, bswap_code, concat_code,
}
use sym_cc_modified.Compiler.Values.{
  is_null_pointer, is_undef, element_of, append_code, append_padding, in_memory_order,
  is_little_endian_type, create_value_expression, create_elements,
}

-- The bits of the expression that the code builds, where `none` stands for an expression that is
-- no bit vector, and for an assertion that fails: Booleans and floating-point numbers are of other
-- sorts, `_sym_concat_helper` takes bit vectors, and `_sym_build_bswap` asserts that the width is a
-- multiple of 16.
unfoldable pub code_bits : DataLayout → ValueCode → Option ℕ
code_bits layout null_pointer_code = some layout.pointer_bits
code_bits layout (bool_code v) = none
code_bits layout (integer_code v bits) = some bits
code_bits layout (integer128_code v) = some 128
code_bits layout (float_code v is_double) = none
code_bits layout (address_code v bits) = some bits
code_bits layout (zero_bytes_code n) = some (8 * n)
code_bits layout (bswap_code code) =
    code_bits layout code >>= λ bits. if bits % 16 == 0 then some bits else none
code_bits layout (concat_code left right) =
    let right_bits = code_bits layout right in
    code_bits layout left >>= λ m. right_bits >>= λ n. some (m + n)

unfoldable pub optional_bits : DataLayout → Option ValueCode → Option ℕ
unfolding code_bits
optional_bits layout none = some 0
optional_bits layout (some code) = code_bits layout code

-- A value of a type whose size in memory has no bits to spare, and whose expression is a bit vector; a
-- structure has at least a byte, its elements stand in order without overlap, and those whose bytes
-- are swapped have an even number of bytes.
unfoldable mutual
  pub Fits : DataLayout → Ty → Value → Type 0
  Fits layout (int_type bits) v =
      (bits ≢ 1)
      × ((bits ≤ 64) ⊎ (bits ≡ 128))
      × (bits ≡ 8 * layout.type_store_size (int_type bits))
  Fits layout float_type v = ⊥
  Fits layout double_type v = ⊥
  Fits layout pointer_type v = layout.pointer_bits ≡ 8 * layout.type_store_size pointer_type
  Fits layout void_type v = ⊥
  Fits layout (array_type n type) v = ⊥
  Fits layout (struct_type fields) v =
      (end : ℕ) × FitFrom layout fields fields 0 v 0 end
      × (end ≤ layout.type_store_size (struct_type fields))
      × (0 < layout.type_store_size (struct_type fields))
      × (layout.type_store_size (struct_type fields) < word_size)

  -- The elements from index `i` on, between two offsets.
  pub FitFrom : DataLayout → Types → Types → ℕ → Value → ℕ → ℕ → Type 0
  FitFrom layout fields no_types i v offset end = (offset ≡ end) × (end < word_size)
  FitFrom layout fields (and_type type types) i v offset end =
      (e : Value) × (element_of v i type ≡ some e)
      × Fits layout type e
      × (is_little_endian_type layout type && ltb 1 (layout.type_store_size type) ≡ true
          → layout.type_store_size type % 2 ≡ 0)
      × (offset ≤ layout.element_offset fields i)
      × (layout.element_offset fields i + layout.type_store_size type < word_size)
      × FitFrom layout fields types (i + 1) v
          (layout.element_offset fields i + layout.type_store_size type) end

append_code-bits :
    (layout : DataLayout) (expr : Option ValueCode) (code : ValueCode) {m n : ℕ}
    → optional_bits layout expr ≡ some m
    → code_bits layout code ≡ some n
    → code_bits layout (append_code expr code) ≡ some (m + n)
unfolding append_code optional_bits code_bits
append_code-bits layout none code {m = m} {n = n} p q =
    let zero_m : 0 ≡ m = ap (λ o. elim o [ none ↦ 0 | some k ↦ k ]) p in
    let sum : n ≡ m + n = omega arith in q ∙ ap some sum
append_code-bits layout (some expr) code p q = rw (p, q)

append_padding-bits :
    (layout : DataLayout) (expr : Option ValueCode) (padding : ℕ) {m : ℕ}
    → optional_bits layout expr ≡ some m
    → optional_bits layout (append_padding expr padding) ≡ some (m + 8 * padding)
unfolding append_padding optional_bits code_bits
append_padding-bits layout expr padding {m = m} p = elim (Bool-cases (ltb 0 padding)) [
  | inl more ↦ rw more (append_code-bits layout expr (zero_bytes_code padding) p refl)
  | inr none_left ↦ let sum : m ≡ m + 8 * padding = ground arith in rw none_left (p ∙ ap some sum)
]

in_memory_order-bits :
    (layout : DataLayout) (type : Ty) (code : ValueCode)
    → (is_little_endian_type layout type && ltb 1 (layout.type_store_size type) ≡ true
        → layout.type_store_size type % 2 ≡ 0)
    → code_bits layout code ≡ some (8 * layout.type_store_size type)
    → code_bits layout (in_memory_order layout type code) ≡ some (8 * layout.type_store_size type)
unfolding in_memory_order code_bits
in_memory_order-bits layout type code even p =
    elim (Bool-cases (is_little_endian_type layout type && ltb 1 (layout.type_store_size type))) [
      | inl swap ↦
          let halves : layout.type_store_size type % 2 ≡ 0 = even swap in
          let words : 8 * layout.type_store_size type % 16 ≡ 0 = omega (arith, halves) in
          let whole : (8 * layout.type_store_size type % 16 == 0) ≡ true = (==_iff _ 0).1 words in
          rw (swap, p, whole) refl
      | inr stay ↦ rw stay p
    ]

abbrev pub IsSized : DataLayout → Ty → Option ValueCode → Type 0
IsSized layout type found =
    (code : ValueCode) × (found ≡ some code)
    × (code_bits layout code ≡ some (8 * layout.type_store_size type))

IsSized-if :
    (layout : DataLayout) (type : Ty) (b : Bool) (x y : Option ValueCode)
    → IsSized layout type x
    → IsSized layout type y
    → IsSized layout type (if b then x else y)
IsSized-if layout type true x y p q = p
IsSized-if layout type false x y p q = q

append_padding-some :
    (layout : DataLayout) (expr : Option ValueCode) (padding : ℕ) {m : ℕ}
    → optional_bits layout expr ≡ some m
    → 0 < m + 8 * padding
    → (code : ValueCode) × (append_padding expr padding ≡ some code)
unfolding append_padding append_code optional_bits
append_padding-some layout none padding {m = m} p h = elim (Bool-cases (ltb 0 padding)) [
  | inl more ↦ (zero_bytes_code padding, rw more refl)
  | inr none_left ↦
      let zero_m : 0 ≡ m = ap (λ o. elim o [ none ↦ 0 | some k ↦ k ]) p in absurd (ground arith)
]
append_padding-some layout (some expr) padding p h = elim (Bool-cases (ltb 0 padding)) [
  | inl more ↦ (concat_code expr (zero_bytes_code padding), rw more refl)
  | inr none_left ↦ (expr, rw none_left refl)
]

-- The padding at the end, where the structure has a byte.
final-IsSized :
    (layout : DataLayout) (fields : Types) (expr : Option ValueCode) (end : ℕ)
    → optional_bits layout expr ≡ some (8 * end)
    → end ≤ layout.type_store_size (struct_type fields)
    → 0 < layout.type_store_size (struct_type fields)
    → layout.type_store_size (struct_type fields) < word_size
    → IsSized layout
        (struct_type fields)
        (append_padding expr (sub64 (layout.type_store_size (struct_type fields)) end))
unfolding optional_bits
final-IsSized layout fields expr end bits le pos_size lt =
    let size = layout.type_store_size (struct_type fields) in
    let padding : sub64 size end ≡ size - end = omega arith in
    let total : 8 * end + 8 * sub64 size end ≡ 8 * size = omega arith in
    let sum = append_padding-bits layout expr (sub64 size end) bits in
    let (code, found) = append_padding-some layout expr (sub64 size end) bits (omega arith) in
    (
      code,
      found,
      subst (λ e. optional_bits layout e ≡ some (8 * end + 8 * sub64 size end)) found sum
          ∙ ap some total,
    )

-- One more element.
create_elements-∷ :
    (layout : DataLayout) (fields types : Types) (type : Ty) (i : ℕ) (v e : Value) (offset n : ℕ)
    (expr : Option ValueCode) (code : ValueCode) (reached : Option (Option ValueCode × ℕ))
    → element_of v i type ≡ some e
    → create_value_expression layout type e ≡ some code
    → add64 (layout.element_offset fields i) (layout.type_store_size type) ≡ n
    → create_elements layout fields types (i + 1) v n (
        some (
          append_code
            (append_padding expr (sub64 (layout.element_offset fields i) offset))
            (in_memory_order layout type code)))
      ≡ reached
    → create_elements layout fields (and_type type types) i v offset expr ≡ reached
unfolding create_elements
create_elements-∷ layout fields types type i v e offset n expr code reached p q r h = rw (p, q, r) h

mutual
  unfolding create_value_expression Fits code_bits optional_bits

  expression-IsSized :
      (layout : DataLayout) (type : Ty) (v : Value)
      → Fits layout type v
      → IsSized layout type (create_value_expression layout type v)
  expression-IsSized layout (int_type bits) v (no_bool, range, fits) =
      elim (Bool-cases (bits == 1)) [
        | inl one ↦ absurd (no_bool ((==_iff bits 1).0 one))
        | inr other ↦ elim (Bool-cases (leb bits 64)) [
          | inl small ↦ (integer_code v bits, rw (other, small) refl, ap some fits)
          | inr large ↦ elim range [
            | inl le ↦ absurd (ground arith)
            | inr wide ↦ (integer128_code v, rw (other, large) refl, ap some (sym wide ∙ fits))
          ]
        ]
      ]
  expression-IsSized layout float_type v fits = absurd fits
  expression-IsSized layout double_type v fits = absurd fits
  expression-IsSized layout pointer_type v fits =
      IsSized-if layout pointer_type (is_null_pointer v) _ _ (_, refl, ap some fits)
        (_, refl, ap some fits)
  expression-IsSized layout void_type v fits = absurd fits
  expression-IsSized layout (array_type n type) v fits = absurd fits
  expression-IsSized layout (struct_type fields) v (end, elements, le, pos_size, lt) =
      let (expr, found, bits) =
        create_elements-bits layout fields fields 0 v 0 end none elements refl in
      IsSized-if layout (struct_type fields) (is_undef v) _ _ (_, refl, refl)
        (rw found (final-IsSized layout fields expr end bits le pos_size lt))

  create_elements-bits :
      (layout : DataLayout) (fields types : Types) (i : ℕ) (v : Value) (offset end : ℕ)
      (expr : Option ValueCode)
      → FitFrom layout fields types i v offset end
      → optional_bits layout expr ≡ some (8 * offset)
      → (done : Option ValueCode) × (create_elements layout fields types i v offset expr
          ≡ some (done, end))
        × (optional_bits layout done ≡ some (8 * end))
  create_elements-bits layout fields no_types i v offset end expr (same, lt) bits =
      (expr, rw same refl, subst (λ n. optional_bits layout expr ≡ some (8 * n)) same bits)
  create_elements-bits layout fields (and_type type types) i v offset end expr
        (e, is_element, fits, even, le, lt, rest) bits =
      let start = layout.element_offset fields i in
      let size = layout.type_store_size type in
      let (code, made, sized) = expression-IsSized layout type e fits in
      let padded = append_padding expr (sub64 start offset) in
      let next = append_code padded (in_memory_order layout type code) in
      let padding : sub64 start offset ≡ start - offset = omega arith in
      let next_offset : add64 start size ≡ start + size = omega arith in
      let reached : 8 * offset + 8 * sub64 start offset + 8 * size ≡ 8 * (start + size) =
        omega arith in
      let next_bits : optional_bits layout (some next) ≡ some (8 * (start + size)) =
        append_code-bits layout padded (in_memory_order layout type code)
          (append_padding-bits layout expr (sub64 start offset) bits)
          (in_memory_order-bits layout type code even sized)
        ∙ ap some reached in
      let (done, found, total) =
        create_elements-bits layout fields types (i + 1) v (start + size) end (some next) rest
          next_bits in
      (
        done,
        create_elements-∷ layout fields types type i v e offset (start + size) expr code
            (some (done, end)) is_element made next_offset found,
        total,
      )

-- For a value that fits its type (an integer of 64 bits at most, or of 128, but not of one; a
-- pointer; or a structure with at least a byte, whose elements fit their types, stand in order
-- without overlap inside it, and have an even number of bytes where their bytes are swapped),
-- each with a size in memory that has no bits to spare, the code for an expression is built, it
-- swaps the bytes only of widths that the swap's assertion admits and concatenates only bit
-- vectors, and the expression has exactly the bits of the size in memory, padding included.
pub create_value_expression-IsSized :
    (layout : DataLayout) (type : Ty) (v : Value)
    → Fits layout type v
    → IsSized layout type (create_value_expression layout type v)
create_value_expression-IsSized layout type v fits = expression-IsSized layout type v fits
