-- ===== src/Refmode.antt =====
-- FactGenerator/src/RefmodeEngine.cpp, RefmodeEngineImpl.cpp and RefmodeEngineImpl.hpp: the texts
-- (refmodes) that identify LLVM objects in the facts, computed in a stack of contexts. The methods
-- on DINode and MDNode have no caller.
pub mod Numbering
pub mod Counting
pub mod Distinct
pub mod Bounds
pub mod Sigil
pub mod Constants
pub mod Stack
use cclyzerpp.Prelude.{
  ℕ, ◌+◌, ◌-◌, ◌%◌, Text, text, to_text, trim, Bool, true, false, ◌&&◌, not, Option, none, some,
  List, [], ◌∷◌, ◌++◌, reverse, if◌then◌else◌,
}
use cclyzerpp.Ir.{
  LlvmType, literal_struct, named_struct, unnamed_struct, other_type, TypeForm, Header, Value,
  plain, metadata_text, metadata_local, header, ValueClass, function_value, global_variable_value,
  global_alias_value, plain_constant, basic_block_value, Function, Constant, constant_header,
}
use cclyzerpp.Context.{
  Context, ContextManager, Anchor, function_anchor, is_function_anchor, is_block_anchor,
  is_instruction_anchor, unsigned_mod, instr_count, constant_count, get_name,
}
use cclyzerpp.Refmode.Numbering.{compute_numbering, number_of}

-- `refmode<llvm::Type>`
type_form_refmode : TypeForm → Text
type_form_refmode (literal_struct printed) = printed
type_form_refmode (named_struct n) = b'%' ∷ n
type_form_refmode (unnamed_struct address) = text "%\"type " ++ address ++ text "\""
type_form_refmode (other_type printed) = printed

unfoldable pub type_refmode : LlvmType → Text
unfolding type_form_refmode
type_refmode t = type_form_refmode t.form

-- What a context contributes, before the text of the contexts inside it.
unfoldable pub segment : (Anchor → Bool) → Option Anchor → Text → Text → Text
segment isa none prefix rest = prefix ++ b':' ∷ rest
segment isa (some a) prefix rest =
    if is_block_anchor a && not (isa a)
    then rest
    else if isa a
    then prefix ++ b':' ∷ []
    else prefix ++ b':' ∷ rest

-- The contexts from the outermost on, up to the first anchor of the wanted class.
unfoldable pub with_context_from : (Anchor → Bool) → List Context → Text
unfolding segment
with_context_from isa [] = []
with_context_from isa (c ∷ cs) = segment isa c.anchor c.prefix (with_context_from isa cs)

unfoldable pub with_context : (Anchor → Bool) → ContextManager → Text
with_context isa m = with_context_from isa (reverse m.contexts)

unfoldable global_prefix : List Context → Text
global_prefix [] = []
global_prefix (c ∷ cs) = c.prefix ++ b':' ∷ []

unfoldable pub with_global_context : ContextManager → Text
unfolding global_prefix
with_global_context m = global_prefix (reverse m.contexts)

abbrev pub is_global_class : ValueClass → Bool
is_global_class function_value = true
is_global_class global_variable_value = true
is_global_class global_alias_value = true
is_global_class _ = false

abbrev pub is_constant_class : ValueClass → Bool
is_constant_class function_value = true
is_constant_class global_variable_value = true
is_constant_class global_alias_value = true
is_constant_class plain_constant = true
is_constant_class _ = false

-- The first tests of `refmodeOf`: a name, a constant, the void type.
unfoldable pub direct_refmode : Header → Option Text
direct_refmode h = elim h.name [
  | some n ↦ some ((if is_global_class h.value_class then b'@' else b'%') ∷ n)
  | none ↦
      if is_constant_class h.value_class
      then some h.operand_text
      else if h.type.is_void
      then some h.operand_text
      else none
]

-- The search for the innermost function's numbering, which is filled when it is empty.
unfoldable pub number_in : Header → List Context → Option Text × List Context
number_in h [] = (none, [])
number_in h (c ∷ cs) =
    let (t, cs') = number_in h cs in
    if c.is_function
    then (let (n, table) = number_of h.address c in
        (some (b'%' ∷ to_text n), record c { numbering = table } ∷ cs))
    else (t, c ∷ cs')

-- Where no function is entered the value is printed with the module.
unfoldable pub numbered_refmode : Header → ContextManager → Text × ContextManager
numbered_refmode h m =
    let (t, cs) = number_in h m.contexts in
    (elim t [ none ↦ h.module_text | some n ↦ n ], record m { contexts = cs })

-- `refmodeOf`
unfoldable pub refmode_of : Value → ContextManager → Text × ContextManager
unfolding direct_refmode numbered_refmode number_in
refmode_of (plain h) m = elim (direct_refmode h) [
  | some t ↦ (trim t, m)
  | none ↦ let (t, m') = numbered_refmode h m in (trim t, m')
]
refmode_of (metadata_text h t) m = elim (direct_refmode h) [
  | some d ↦ (trim d, m)
  | none ↦ (trim t, m)
]
refmode_of (metadata_local h ty v) m =
    let (r, m') = refmode_of v m in
    elim (direct_refmode h) [
      | some d ↦ (trim d, m)
      | none ↦ (trim (type_refmode ty ++ b' ' ∷ r), m')
    ]

unfoldable pub instruction_refmode : ContextManager → Text
instruction_refmode m =
    with_context is_function_anchor m ++ to_text ((instr_count m + unsigned_mod - 1) % unsigned_mod)

unfoldable pub constant_refmode : Constant → ContextManager → Text × ContextManager
constant_refmode c m =
    let (n, m₁) = constant_count m in
    let (r, m₂) = refmode_of (plain (constant_header c)) m₁ in
    (with_context is_instruction_anchor m ++ (to_text n ++ b':' ∷ r), m₂)

unfoldable pub block_refmode : Value → ContextManager → Text × ContextManager
block_refmode v m =
    let (r, m') = refmode_of v m in
    (with_context is_function_anchor m' ++ (text "[basicblock]" ++ r), m')

-- `refmode<llvm::DINode>` and `refmode<llvm::MDNode>`, with the node's text by the slot tracker.
unfoldable pub node_refmode : Text → ContextManager → Text
node_refmode id m = with_global_context m ++ id

unfoldable pub function_refmode : Function → ContextManager → Text
function_refmode f m = with_global_context m ++ get_name f.value

unfoldable pub asm_refmode : ContextManager → Text
asm_refmode m = with_context is_instruction_anchor m ++ b':' ∷ text "<asm>"

unfoldable pub global_value_refmode : Value → ContextManager → Text × ContextManager
global_value_refmode v m = let (r, m') = refmode_of v m in (with_global_context m' ++ r, m')

abbrev pub is_basic_block : Value → Bool
is_basic_block v = elim (header v).value_class [ basic_block_value ↦ true | _ ↦ false ]

unfoldable pub value_refmode : Value → ContextManager → Text × ContextManager
unfolding block_refmode
value_refmode v m =
    if is_basic_block v
    then block_refmode v m
    else (let (r, m') = refmode_of v m in (with_context is_function_anchor m' ++ r, m'))
