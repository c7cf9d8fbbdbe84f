-- ===== src/Ir/Values.antt =====
-- Views of types, values and constants.
use cclyzerpp.Prelude.{ℕ, Text, Bool, Option}
use cclyzerpp.Ir.Enums.{CastOpcode}

-- What `Type::print`, `StructType::isLiteral` and `getName` return.
pub data TypeForm : Type 0 where
  literal_struct : Text → TypeForm
  named_struct : Text → TypeForm
  -- Neither literal nor named; the text is the printed address.
  unnamed_struct : Text → TypeForm
  other_type : Text → TypeForm

-- `const llvm::Type*`: the address is the identity of the (uniqued) type.
pub record LlvmType : Type 0 where
  pub address : ℕ
  pub form : TypeForm
  pub is_void : Bool

pub data ValueClass : Type 0 where
  function_value global_variable_value global_alias_value plain_constant : ValueClass
  basic_block_value argument_value instruction_value inline_asm_value metadata_value : ValueClass

-- What the accessors of `llvm::Value` return. `name` is `none` where `hasName()` is false.
pub record Header : Type 0 where
  pub address : ℕ
  pub name : Option Text
  pub type : LlvmType
  pub value_class : ValueClass
  -- `printAsOperand` without the type
  pub operand_text : Text
  -- `printAsOperand` without the type, with the module
  pub module_text : Text

-- A value; one of metadata type is a `MetadataAsValue`.
pub data Value : Type 0 where
  plain : Header → Value
  -- the wrapped node, string or constant, as the slot tracker prints it
  metadata_text : Header → Text → Value
  -- a wrapped local value with its type
  metadata_local : Header → LlvmType → Value → Value

abbrev pub header : Value → Header
header (plain h) = h
header (metadata_text h t) = h
header (metadata_local h ty v) = h

-- A constant: its header; the unsigned decimal text of its unique integer where that fits 16 bits;
-- and what its class makes accessible.
mutual
  pub data Constant : Type 0 where
    const : Header → Option Text → Form → Constant

  pub data Form : Type 0 where
    null_pointer integer floating function_form global_variable_form undef : Form
    cast_expr : CastOpcode → Constant → Form
    gep_expr : Constant → Constants → Form
    array_form struct_form vector_form : Constants → Form
    other_expr other_form : Form

  pub data Constants : Type 0 where
    nil : Constants
    cons : Constant → Constants → Constants

abbrev pub constant_header : Constant → Header
constant_header (const h n f) = h

abbrev pub small_integer : Constant → Option Text
small_integer (const h n f) = n

pub record InlineAsm : Type 0 where
  pub header : Header
  pub constraint_string : Text
  pub asm_string : Text

-- An operand of an instruction, by the first of the two tests of `recordValue` that it passes.
pub data Operand : Type 0 where
  constant_operand : Constant → Operand
  asm_operand : InlineAsm → Operand
  variable_operand : Value → Operand
