-- ===== src/Compiler/Ir.antt =====
-- What the pass reads of LLVM's intermediate representation, and the code that it inserts. LLVM
-- itself is not part of this repository: its data layout is a record of functions.
use sym_cc_modified.Base.{ℕ, Bool, List}
use sym_cc_modified.Compiler.Runtime.{SymFn}

-- Types. `Types` is a list of them.
mutual
  pub data Ty : Type 0 where
    int_type : ℕ → Ty
    float_type double_type pointer_type void_type : Ty
    struct_type : Types → Ty
    array_type : ℕ → Ty → Ty

  pub data Types : Type 0 where
    no_types : Types
    and_type : Ty → Types → Types

-- Operands of the program's instructions. A local value has the number of the argument or
-- instruction that it is; `constant` is any constant that is not listed, an address for example.
-- `element` is what `extractvalue` gives.
mutual
  pub data Value : Type 0 where
    local : ℕ → Ty → Value
    constant : Ty → ℕ → Value
    constant_int : ℕ → ℕ → Value
    constant_null : Value
    undef : Ty → Value
    constant_struct : Ty → Values → Value
    element : Value → ℕ → Ty → Value

  pub data Values : Type 0 where
    no_values : Values
    and_value : Value → Values → Values

unfoldable pub type_of : Value → Ty
type_of (local id type) = type
type_of (constant type address) = type
type_of (constant_int bits value) = int_type bits
type_of constant_null = pointer_type
type_of (undef type) = type
type_of (constant_struct type elements) = type
type_of (element v index type) = type

-- `DataLayout` and `StructLayout`; sizes and offsets are in bytes.
pub record DataLayout : Type 0 where
  pub element_offset : Types → ℕ → ℕ
  pub type_store_size : Ty → ℕ
  pub type_alloc_size : Ty → ℕ
  pub is_little_endian : Bool
  pub pointer_bits : ℕ

-- The nested calls that build an expression for a concrete value.
pub data ValueCode : Type 0 where
  null_pointer_code : ValueCode
  bool_code : Value → ValueCode
  integer_code : Value → ℕ → ValueCode
  integer128_code : Value → ValueCode
  float_code : Value → Bool → ValueCode
  address_code : Value → ℕ → ValueCode
  zero_bytes_code : ℕ → ValueCode
  bswap_code : ValueCode → ValueCode
  concat_code : ValueCode → ValueCode → ValueCode

-- Operands of inserted instructions: the null expression, the result of an inserted instruction,
-- a value of the program, a number, or a site identifier.
pub data Operand : Type 0 where
  null_expression : Operand
  result : ℕ → Operand
  concrete : Value → Operand
  number : ℕ → Operand
  site : ℕ → Operand

-- Inserted instructions. `value_expression` stands for all the calls of its code.
pub data Emitted : Type 0 where
  call : SymFn → List Operand → Emitted
  select : Value → Operand → Operand → Emitted
  phi : List Operand → Emitted
  value_expression : ValueCode → Emitted
  compare_values : Value → Value → Emitted

-- Where an instruction is inserted: in front of an instruction of the program, where a call
-- returns to, or in the block that is entered only if the operand is not null.
pub data Point : Type 0 where
  before : ℕ → Point
  return_point : ℕ → Point
  block_entry : ℕ → Point
  if_symbolic : Operand → ℕ → Point

pub record Placed : Type 0 where
  pub point : Point
  pub emitted : Emitted
