-- ===== src/Tests/Data.antt =====
-- A small module for the tests: `define i32 @f(i32 %x) { entry: ret i32 %x }`.
use cclyzerpp.Prelude.{ℕ, Text, true, false, Option, none, some, [], ◌∷◌, text_eq}
use cclyzerpp.Ir.{
  LlvmType, other_type, Header, Value, plain, argument_value, basic_block_value, instruction_value,
  function_value, plain_constant, ValueClass, variable_operand, ret_op, Instruction, Block,
  Function, Module, CallingConv, Linkage, Visibility, Constant, const, integer,
}
use cclyzerpp.Externals.{Externals}
use cclyzerpp.Gen.{State}

-- No name is mangled, each text hashes to its first character, and expressions match themselves.
abbrev pub first_character : Text → ℕ
first_character [] = 0
first_character (c ∷ s) = c

abbrev pub tools : Externals
tools = record {
  cxa_demangle = λ n. none;
  string_hash = first_character;
  regex_search = text_eq;
  regex_compiles = λ r. true;
}

abbrev pub i32 : LlvmType
i32 = record { address = 1; form = other_type (b'i' ∷ b'3' ∷ b'2' ∷ []); is_void = false }

abbrev pub void : LlvmType
void = record { address = 2; form = other_type (b'v' ∷ []); is_void = true }

abbrev pub value_at : ℕ → Option Text → LlvmType → ValueClass → Header
value_at a n t c = record {
  address = a;
  name = n;
  type = t;
  value_class = c;
  operand_text = b'7' ∷ [];
  module_text = b'7' ∷ [];
}

abbrev pub parameter : Value
parameter = plain (value_at 10 (some (b'x' ∷ [])) i32 argument_value)

abbrev pub unnamed : Value
unnamed = plain (value_at 11 none i32 argument_value)

abbrev pub seven : Constant
seven = const (value_at 12 none i32 plain_constant) (some (b'7' ∷ [])) integer

abbrev pub return : Instruction
return = record {
  value = plain (value_at 13 none void instruction_value);
  opcode = ret_op (some (variable_operand parameter));
  location = none;
}

abbrev pub entry : Block
entry = record {
  value = plain (value_at 14 (some (b'e' ∷ [])) i32 basic_block_value);
  predecessors = [];
  instructions = return ∷ [];
}

abbrev pub identity : Function
identity = record {
  value = plain (value_at 15 (some (b'f' ∷ [])) i32 function_value);
  function_type = i32;
  visibility = Visibility.default_visibility;
  linkage = Linkage.external_linkage;
  alignment = 0;
  gc = none;
  personality = none;
  calling_conv = CallingConv.cc_c;
  has_global_unnamed_addr = false;
  is_declaration = false;
  function_section = none;
  args = parameter ∷ unnamed ∷ [];
  blocks = entry ∷ [];
}

abbrev pub small_module : Module
small_module = record { globals = []; aliases = []; functions = identity ∷ [] }

abbrev pub start : State
start = record {
  manager = record { contexts = []; function_index = none; instr_index = 0; constant_index = 0 };
  log = [];
  result_map = [];
  variable_types = [];
  types = [];
  warnings = [];
}
