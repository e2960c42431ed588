-- ===== src/Compiler/Values.antt =====
-- compiler/Symbolizer.cpp: the code that builds an expression for a concrete value, and the offsets
-- of members of aggregates.
use sym_cc_modified.Base.{
  ℕ, zero, suc, ◌+◌, ◌*◌, ◌%◌, ◌^◌, Bool, true, false, ◌&&◌, not, Option, none, some, List, [], ◌∷◌,
  ltb, leb, ◌==◌, if◌then◌else◌, ◌>>=◌, add64, sub64,
}
use sym_cc_modified.Compiler.Ir.{
  Ty, int_type, float_type, double_type, pointer_type, void_type, struct_type, array_type, Types,
  no_types, and_type, Value, constant_null, undef, constant_struct, element, Values, no_values,
  and_value, DataLayout, ValueCode, null_pointer_code, bool_code, integer_code, integer128_code,
  float_code, address_code, zero_bytes_code, bswap_code, concat_code,
}

pub is_aggregate : Ty → Bool
is_aggregate (struct_type fields) = true
is_aggregate (array_type n type) = true
is_aggregate type = false

pub is_little_endian_type : DataLayout → Ty → Bool
unfolding is_aggregate
is_little_endian_type layout type = not (is_aggregate type) && layout.is_little_endian

unfoldable pub is_null_pointer : Value → Bool
is_null_pointer constant_null = true
is_null_pointer v = false

unfoldable pub is_undef : Value → Bool
is_undef (undef type) = true
is_undef v = false

pub get_element : Values → ℕ → Option Value
get_element no_values i = none
get_element (and_value v vs) zero = some v
get_element (and_value v vs) (suc i) = get_element vs i

-- An element of a structure: of a constant, or by `extractvalue`.
unfoldable pub element_of : Value → ℕ → Ty → Option Value
unfolding get_element
element_of (constant_struct type elements) i element_type = get_element elements i
element_of v i element_type = some (element v i element_type)

-- The lambda `append`.
unfoldable pub append_code : Option ValueCode → ValueCode → ValueCode
append_code none code = code
append_code (some expr) code = concat_code expr code

unfoldable pub append_padding : Option ValueCode → ℕ → Option ValueCode
unfolding append_code
append_padding expr padding =
    if ltb 0 padding then some (append_code expr (zero_bytes_code padding)) else expr

-- The bytes of an element are swapped, if memory holds it in little-endian order.
unfoldable pub in_memory_order : DataLayout → Ty → ValueCode → ValueCode
unfolding is_little_endian_type
in_memory_order layout type code =
    if is_little_endian_type layout type && ltb 1 (layout.type_store_size type)
    then bswap_code code
    else code

-- `none` stands for `llvm_unreachable`, and for the null result of a structure with no bytes.
unfoldable mutual
  unfolding is_null_pointer is_undef element_of append_code append_padding in_memory_order

  pub create_value_expression : DataLayout → Ty → Value → Option ValueCode
  create_value_expression layout (int_type bits) v =
      if bits == 1
      then some (bool_code v)
      else if leb bits 64
      then some (integer_code v bits)
      else some (integer128_code v)
  create_value_expression layout float_type v = some (float_code v false)
  create_value_expression layout double_type v = some (float_code v true)
  create_value_expression layout pointer_type v =
      if is_null_pointer v
      then some null_pointer_code
      else some (address_code v layout.pointer_bits)
  create_value_expression layout void_type v = none
  create_value_expression layout (array_type n type) v = none
  create_value_expression layout (struct_type fields) v =
      let size = layout.type_store_size (struct_type fields) in
      let elements = create_elements layout fields fields 0 v 0 none in
      if is_undef v
      then some (zero_bytes_code size)
      else (elements >>= λ done. append_padding done.0 (sub64 size done.1))

  -- The elements that are left, from index `i`, with the end of the portion that is expressed and
  -- its expression.
  pub create_elements :
      DataLayout → Types → Types → ℕ → Value → ℕ → Option ValueCode → Option (Option ValueCode × ℕ)
  create_elements layout fields no_types i v offset expr = some (expr, offset)
  create_elements layout fields (and_type type types) i v offset expr =
      let start = layout.element_offset fields i in
      let padded = append_padding expr (sub64 start offset) in
      (element_of v i type >>= λ e. create_value_expression layout type e) >>= λ code.
      create_elements layout fields types (i + 1) v (add64 start (layout.type_store_size type))
        (some (append_code padded (in_memory_order layout type code)))

-- `getElementType`; `none` for an index that is out of range.
unfoldable pub field_type : Types → ℕ → Option Ty
field_type no_types i = none
field_type (and_type type types) zero = some type
field_type (and_type type types) (suc i) = field_type types i

-- The offset of the indexed member in a 64-bit integer, and the member's type. The size of an
-- array's element is an `unsigned`, and so is an index. `none` stands for a failed cast.
unfoldable pub member_of : DataLayout → Ty → ℕ → Option (ℕ × Ty)
unfolding field_type
member_of layout (struct_type fields) index =
    field_type fields index >>= λ type. some (layout.element_offset fields index, type)
member_of layout (array_type n type) index =
    some (layout.type_alloc_size type % 2 ^ 32 * index % 2 ^ 32, type)
member_of layout type index = none

unfoldable pub aggregate_member_offset_from : DataLayout → Ty → List ℕ → ℕ → Option (ℕ × Ty)
unfolding member_of
aggregate_member_offset_from layout type [] offset = some (offset, type)
aggregate_member_offset_from layout type (index ∷ indices) offset =
    member_of layout type index >>= λ member.
    aggregate_member_offset_from layout member.1 indices (add64 offset member.0)

unfoldable pub aggregate_member_offset : DataLayout → Ty → List ℕ → Option (ℕ × Ty)
unfolding aggregate_member_offset_from
aggregate_member_offset layout type indices = aggregate_member_offset_from layout type indices 0
