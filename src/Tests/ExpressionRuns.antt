-- ===== src/Tests/ExpressionRuns.antt =====
-- Runs of the compiler pass on aggregates.
use sym_cc_modified.Base.{◌*◌, ◌/◌, ◌≡◌, refl, inl, true, some, [], ◌∷◌, arith}
use sym_cc_modified.Compiler.Ir.{
  Ty, int_type, struct_type, array_type, Types, no_types, and_type, local, element, DataLayout,
}
use sym_cc_modified.Compiler.Values.{
  element_of, field_type, aggregate_member_offset, create_value_expression,
}
use sym_cc_modified.Compiler.Sizes.{Fits, IsSized, create_value_expression-IsSized}
use sym_cc_modified.Compiler.Offsets.{MemberAt, aggregate_member_offset-MemberAt}
use sym_cc_modified.Tests.CompilerRuns.{layout, int32}

-- A number and an array of three.
abbrev pair : Ty
pair = struct_type (and_type int32 (and_type (array_type 3 int32) no_types))

-- The last element of the array, at 4 plus 2 times the size of an element.
pair-last : MemberAt layout pair (1 ∷ 2 ∷ []) 12 int32
unfolding MemberAt field_type
pair-last = (array_type 3 int32, 8, refl, refl, (0, refl, (refl, refl)))

aggregate_member_offset-MemberAt_example :
    aggregate_member_offset layout pair (1 ∷ 2 ∷ []) ≡ some (12, int32)
aggregate_member_offset-MemberAt_example =
    aggregate_member_offset-MemberAt layout pair (1 ∷ 2 ∷ []) 12 int32 pair-last

-- A number of 32 bits and one of 64, with padding between them.
abbrev padded_fields : Types
padded_fields = and_type int32 (and_type (int_type 64) no_types)

abbrev padded_layout : DataLayout
padded_layout = record {
  element_offset = λ fields i. 8 * i;
  type_store_size = λ type. elim type [ int_type bits ↦ bits / 8 | _ ↦ 16 ];
  type_alloc_size = λ type. 16;
  is_little_endian = true;
  pointer_bits = 64;
}

padded-Fits : Fits padded_layout (struct_type padded_fields) (local 9 (struct_type padded_fields))
unfolding Fits element_of
padded-Fits = (
  16,
  (
    element (local 9 (struct_type padded_fields)) 0 int32,
    refl,
    ((λ e. absurd (omega arith)), inl (omega arith), refl),
    (λ h. refl),
    omega arith,
    omega arith,
    (
      element (local 9 (struct_type padded_fields)) 1 (int_type 64),
      refl,
      ((λ e. absurd (omega arith)), inl (omega arith), refl),
      (λ h. refl),
      omega arith,
      omega arith,
      (refl, omega arith),
    ),
  ),
  omega arith,
  omega arith,
  omega arith,
)

create_value_expression-IsSized_example : IsSized padded_layout (struct_type padded_fields) (
    create_value_expression padded_layout
      (struct_type padded_fields)
      (local 9 (struct_type padded_fields)))
create_value_expression-IsSized_example =
    create_value_expression-IsSized padded_layout (struct_type padded_fields)
      (local 9 (struct_type padded_fields)) padded-Fits
