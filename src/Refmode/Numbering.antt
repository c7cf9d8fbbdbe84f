-- ===== src/Refmode/Numbering.antt =====
-- FactGenerator/src/RefmodeEngineImpl.cpp, `computeNumbering`: the numbers of the unnamed values of
-- a function, and the lookup `numbering[Val]` of `refmodeOf`.
use mathlib.Core.List.{foldl}
use cclyzerpp.Prelude.{
  ℕ, ◌+◌, ◌%◌, Bool, ◌||◌, true, false, Option, none, some, List, [], ◌∷◌, ◌==◌, if◌then◌else◌,
}
use cclyzerpp.Ir.{Value, header, Instruction, Block, Function}
use cclyzerpp.Context.{unsigned_mod, Context, function_anchor}

-- `counter` and the map so far; a later assignment hides an earlier one.
pub record Numbering : Type 0 where
  pub counter : ℕ
  pub table : List (ℕ × ℕ)

abbrev pub has_name : Value → Bool
has_name v = elim (header v).name [ none ↦ false | some n ↦ true ]

-- `numbering[&value] = counter++`, of an `unsigned` counter
unfoldable pub assign : Numbering → Value → Numbering
assign n v = record {
  counter = (n.counter + 1) % unsigned_mod;
  table = ((header v).address, n.counter) ∷ n.table;
}

unfoldable pub number_value : Numbering → Value → Numbering
unfolding assign
number_value n v = if has_name v then n else assign n v

unfoldable pub number_instruction : Numbering → Instruction → Numbering
unfolding assign
number_instruction n i =
    if has_name i.value || (header i.value).type.is_void then n else assign n i.value

unfoldable pub number_block : Numbering → Block → Numbering
unfolding number_value number_instruction
number_block n b = foldl number_instruction (number_value n b.value) b.instructions

unfoldable pub number_function : Function → Numbering
unfolding number_block
number_function f =
    foldl number_block (foldl number_value (record { counter = 0; table = [] }) f.args) f.blocks

unfoldable pub compute_numbering : Function → List (ℕ × ℕ)
unfolding number_function
compute_numbering f = (number_function f).table

unfoldable pub find_number : ℕ → List (ℕ × ℕ) → Option ℕ
find_number a [] = none
find_number a ((b, n) ∷ table) = if b == a then some n else find_number a table

-- The numbering of a context, computed when it is empty; only a function's context has one.
filled : Context → List (ℕ × ℕ)
filled c = elim c.numbering [
  | [] ↦ elim c.anchor [ some (function_anchor f) ↦ compute_numbering f | _ ↦ [] ]
  | e ∷ table ↦ e ∷ table
]

-- `numbering[Val]` with `operator[]`: a missing entry is made, with the number 0.
unfoldable pub number_of : ℕ → Context → ℕ × List (ℕ × ℕ)
unfolding filled
number_of a c = elim (find_number a (filled c)) [
  | some n ↦ (n, filled c)
  | none ↦ (0, (a, 0) ∷ filled c)
]
