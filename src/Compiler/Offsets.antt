-- ===== src/Compiler/Offsets.antt =====
-- compiler/Symbolizer.cpp: the offset of a member of an aggregate.
use sym_cc_modified.Base.{
  ℕ, zero, suc, ◌+◌, ◌*◌, ◌%◌, ◌^◌, ◌<◌, ◌≡◌, ◌∙◌, ap, ap₂, some, List, [], ◌∷◌, add64, word_size,
  arith,
}
use native.Mathlib.Nat.{mul-suc}
use sym_cc_modified.Compiler.Ir.{
  Ty, int_type, float_type, double_type, pointer_type, void_type, struct_type, array_type,
  DataLayout,
}
use sym_cc_modified.Compiler.Values.{
  field_type, member_of, aggregate_member_offset_from, aggregate_member_offset,
}

-- The place of a member in an aggregate, without bounds on the sum: the layout's offset for each
-- field on the path, and for each element of an array the size of an element, its padding
-- included, times the index, of which 32 bits are kept.
unfoldable pub MemberAt : DataLayout → Ty → List ℕ → ℕ → Ty → Type 0
MemberAt layout type [] n member = (n ≡ 0) × (type ≡ member)
MemberAt layout (struct_type fields) (i ∷ path) n member =
    (type : Ty) × (rest : ℕ) × (field_type fields i ≡ some type)
    × (n ≡ layout.element_offset fields i + rest)
    × MemberAt layout type path rest member
MemberAt layout (array_type k type) (i ∷ path) n member =
    (rest : ℕ) × (n ≡ layout.type_alloc_size type * i % 2 ^ 32 + rest)
    × MemberAt layout type path rest member
MemberAt layout (int_type bits) (i ∷ path) n member = ⊥
MemberAt layout float_type (i ∷ path) n member = ⊥
MemberAt layout double_type (i ∷ path) n member = ⊥
MemberAt layout pointer_type (i ∷ path) n member = ⊥
MemberAt layout void_type (i ∷ path) n member = ⊥

narrow_product : (a i : ℕ) → a % 2 ^ 32 * i % 2 ^ 32 ≡ a * i % 2 ^ 32
narrow_product a zero = omega arith
narrow_product a (suc i) =
    let step : a * suc i ≡ a * i + a = mul-suc a i in
    let low : a % 2 ^ 32 * suc i ≡ a % 2 ^ 32 * i + a % 2 ^ 32 = mul-suc (a % 2 ^ 32) i in
    let rest = narrow_product a i in rw (step, low) (omega (arith, rest))

from-MemberAt :
    (layout : DataLayout) (path : List ℕ) (type : Ty) (offset n : ℕ) (member : Ty)
    → offset < word_size
    → MemberAt layout type path n member
    → aggregate_member_offset_from layout type path offset ≡ some ((offset + n) % word_size, member)
unfolding aggregate_member_offset_from member_of MemberAt
from-MemberAt layout [] type offset n member lt (zero_n, same) =
    let sum : offset ≡ (offset + n) % word_size = omega arith in ap₂ (λ o t. some (o, t)) sum same
from-MemberAt layout (i ∷ path) (struct_type fields) offset n member lt
      (type, rest, found, here, inside) =
    let start = add64 offset (layout.element_offset fields i) in
    let sum : (start + rest) % word_size ≡ (offset + n) % word_size = omega arith in
    rw found (
      from-MemberAt layout path type start rest member (omega arith) inside
      ∙ ap (λ o. some (o, member)) sum)
from-MemberAt layout (i ∷ path) (array_type k type) offset n member lt (rest, here, inside) =
    let start = add64 offset (layout.type_alloc_size type % 2 ^ 32 * i % 2 ^ 32) in
    let narrow = narrow_product (layout.type_alloc_size type) i in
    let sum : (start + rest) % word_size ≡ (offset + n) % word_size = omega (arith, narrow) in
    from-MemberAt layout path type start rest member (omega arith) inside
    ∙ ap (λ o. some (o, member)) sum
from-MemberAt layout (i ∷ path) (int_type bits) offset n member lt at = absurd at
from-MemberAt layout (i ∷ path) float_type offset n member lt at = absurd at
from-MemberAt layout (i ∷ path) double_type offset n member lt at = absurd at
from-MemberAt layout (i ∷ path) pointer_type offset n member lt at = absurd at
from-MemberAt layout (i ∷ path) void_type offset n member lt at = absurd at

-- For a path to a member of an aggregate, the offset that is computed is, modulo 2 ^ 64, the sum
-- over the path of the layout's offset for each field and, for each element of an array, of the
-- element's allocation size, its padding included, times the index, of which 32 bits are kept;
-- and the type is the member's.
pub aggregate_member_offset-MemberAt :
    (layout : DataLayout) (type : Ty) (path : List ℕ) (n : ℕ) (member : Ty)
    → MemberAt layout type path n member
    → aggregate_member_offset layout type path ≡ some (n % word_size, member)
unfolding aggregate_member_offset
aggregate_member_offset-MemberAt layout type path n member at =
    let sum : (0 + n) % word_size ≡ n % word_size = omega arith in
    from-MemberAt layout path type 0 n member (omega arith) at ∙ ap (λ o. some (o, member)) sum
