-- ===== src/Context.antt =====
-- FactGenerator/src/ContextManager.hpp: the stack of containers under which entities are named.
-- The vector is a list with the innermost context at its head, and SIZE_MAX is `none`; `unsigned`
-- counters wrap at 2 ^ 32.
pub mod Stack
use cclyzerpp.Prelude.{
  ℕ, ◌+◌, ◌%◌, ◌^◌, Text, to_text, Bool, true, false, Option, none, some, List, [], ◌∷◌, ◌++◌,
  reverse, length, get_elem?, if◌then◌else◌,
}
use cclyzerpp.Ir.{Value, header, Function}

-- The container of a context, by what it is an instance of.
pub data Anchor : Type 0 where
  function_anchor : Function → Anchor
  block_anchor instruction_anchor other_anchor : Value → Anchor

pub record Context : Type 0 where
  -- `none` is the null anchor of the module's own context
  pub anchor : Option Anchor
  -- numbers of unnamed values, by address; the first entry of an address counts
  pub numbering : List (ℕ × ℕ)
  pub prefix : Text
  pub is_function : Bool

pub record ContextManager : Type 0 where
  pub contexts : List Context
  pub function_index : Option ℕ
  pub instr_index : ℕ
  pub constant_index : ℕ

abbrev pub unsigned_mod : ℕ
unsigned_mod = 2 ^ 32

abbrev pub get_name : Value → Text
get_name v = elim (header v).name [ none ↦ [] | some n ↦ n ]

unfoldable pub new_manager : Text → ContextManager
new_manager path = record {
  contexts =
      record {
        anchor = none;
        numbering = [];
        prefix = b'<' ∷ path ++ b'>' ∷ [];
        is_function = false;
      }
      ∷ [];
  function_index = none;
  instr_index = 0;
  constant_index = 0;
}

abbrev pub is_function_anchor : Anchor → Bool
is_function_anchor (function_anchor f) = true
is_function_anchor _ = false

abbrev pub is_block_anchor : Anchor → Bool
is_block_anchor (block_anchor v) = true
is_block_anchor _ = false

abbrev pub is_instruction_anchor : Anchor → Bool
is_instruction_anchor (instruction_anchor v) = true
is_instruction_anchor _ = false

unfoldable pub new_context : Anchor → Text → Context
new_context a prefix = record {
  anchor = some a;
  numbering = [];
  prefix = prefix;
  is_function = is_function_anchor a;
}

unfoldable pub push_context : Anchor → ContextManager → ContextManager
unfolding new_context
push_context (function_anchor f) m = record {
  contexts = new_context (function_anchor f) (get_name f.value) ∷ m.contexts;
  function_index = some (length m.contexts);
  instr_index = 0;
  constant_index = m.constant_index;
}
push_context (block_anchor v) m = record m {
  contexts = new_context (block_anchor v) (get_name v) ∷ m.contexts;
}
push_context (instruction_anchor v) m = record {
  contexts = new_context (instruction_anchor v) (to_text m.instr_index) ∷ m.contexts;
  function_index = m.function_index;
  instr_index = (m.instr_index + 1) % unsigned_mod;
  constant_index = 0;
}
push_context (other_anchor v) m = record m {
  contexts = new_context (other_anchor v) [] ∷ m.contexts;
}

-- `contexts` is never empty here in the source, where it would be undefined behaviour.
pop_list : List Context → ContextManager → ContextManager
pop_list [] m = m
pop_list (c ∷ cs) m = record m {
  contexts = cs;
  function_index = if c.is_function then none else m.function_index;
}

unfoldable pub pop_context : ContextManager → ContextManager
unfolding pop_list
pop_context m = pop_list m.contexts m

unfoldable pub instr_count : ContextManager → ℕ
instr_count m = m.instr_index

unfoldable pub constant_count : ContextManager → ℕ × ContextManager
constant_count m =
    (m.constant_index, record m { constant_index = (m.constant_index + 1) % unsigned_mod })

abbrev pub function_at : Option Context → Option Context
function_at none = none
function_at (some c) = if c.is_function then some c else none

unfoldable pub function_context : ContextManager → Option Context
function_context m = elim m.function_index [
  | none ↦ none
  | some i ↦ function_at (get_elem? (reverse m.contexts) i)
]

-- A context without its numbering, which is a cache.
abbrev pub Frame : Type 0
Frame = Option Anchor × Text × Bool

abbrev pub frame : Context → Frame
frame c = (c.anchor, c.prefix, c.is_function)
