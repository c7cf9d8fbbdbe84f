-- ===== src/Gen.antt =====
-- FactGenerator/include/FactGenerator.hpp: the state of the fact generator, as a state monad whose
-- computations may stop the program. What was written before a stop stays written.
pub mod Monad
use cclyzerpp.Prelude.{
  ℕ, ◌+◌, Text, text, text_eq, to_text, Bool, true, false, Option, none, some, List, [], ◌∷◌, ◌++◌,
  ◌==◌, if◌then◌else◌,
}
use cclyzerpp.Predicates.{Predicate}
use cclyzerpp.Ir.{LlvmType, Function}
use cclyzerpp.Context.{
  Anchor, function_anchor, Context, ContextManager, push_context, pop_context, function_context,
  new_manager,
}
use cclyzerpp.Refmode.{type_refmode, instruction_refmode}
unfoldable pub use Monad.*

-- `writeFact(pred, refmode, vals...)`
unfoldable pub write_fact : Predicate → Text → List Field → Gen (Unit {0})
write_fact p key fields s =
    done tt (record s { log = record { predicate = p; key = key; fields = fields } ∷ s.log })

unfoldable pub has_variable : Text → List (Text × LlvmType) → Bool
has_variable k [] = false
has_variable k ((j, t) ∷ m) = if text_eq j k then true else has_variable k m

-- `variableTypes[id] = type`
unfoldable pub assign_variable : Text → LlvmType → List (Text × LlvmType) → List (Text × LlvmType)
assign_variable k t [] = (k, t) ∷ []
assign_variable k t ((j, u) ∷ m) =
    let rest = assign_variable k t m in if text_eq j k then (j, t) ∷ m else (j, u) ∷ rest

unfoldable pub record_variable : Text → LlvmType → Gen (Unit {0})
record_variable id t s =
    done tt (record s { variable_types = assign_variable id t s.variable_types })

unfoldable pub has_type : LlvmType → List LlvmType → Bool
has_type t [] = false
has_type t (u ∷ ts) = if u.address == t.address then true else has_type t ts

-- `types.insert(type)`
unfoldable pub insert_type : LlvmType → Gen (Unit {0})
insert_type t s = done tt (record s { types = if has_type t s.types then s.types else t ∷ s.types })

unfoldable pub record_type : LlvmType → Gen Text
record_type t = do insert_type t; pure (type_refmode t)

unfoldable pub has_result : Text → List (Text × ℕ) → Bool
has_result k [] = false
has_result k ((j, v) ∷ m) = if text_eq j k then true else has_result k m

-- `result_map_.insert({key, &value})`, which keeps an entry that is there.
unfoldable pub save_result : Text → ℕ → Gen (Unit {0})
save_result k v s = done tt (record s {
  result_map = if has_result k s.result_map then s.result_map else (k, v) ∷ s.result_map;
})

-- A refmode of the engine, which may count a constant or fill a numbering.
unfoldable pub refmode : (ContextManager → Text × ContextManager) → Gen Text
refmode f s = let (r, m) = f s.manager in done r (record s { manager = m })

unfoldable pub instruction_ref : Gen Text
instruction_ref s = done (instruction_refmode s.manager) s

-- The RAII object `Context`: its destructor runs also when the scope is left by an exception.
-- (After an `exit` no destructor runs, and nothing reads the state.)
unfoldable pub leave_outcome : {A : Type 0} → Outcome A → Outcome A
leave_outcome (done a s) = done a (record s { manager = pop_context s.manager })
leave_outcome (stopped e s) =
    stopped e (if ends_process e then s else record s { manager = pop_context s.manager })

unfoldable pub in_context : {A : Type 0} → Anchor → Gen A → Gen A
unfolding leave_outcome
in_context a body s = leave_outcome (body (record s { manager = push_context a s.manager }))

-- `ModuleContext`; `exitModule` does nothing.
unfoldable pub enter_module : Text → Gen (Unit {0})
enter_module path s = done tt (record s { manager = new_manager path })

-- `unknown(...)` prints a warning.
unfoldable pub unknown : Text → Text → Gen (Unit {0})
unknown what t s = done tt (record s { warnings = (what, t) ∷ s.warnings })

unfoldable pub context_function : Option Context → Option Function
context_function none = none
context_function (some c) = elim c.anchor [ some (function_anchor f) ↦ some f | _ ↦ none ]

-- `functionContext()`
unfoldable pub current_function : Gen (Option Function)
unfolding context_function
current_function s = done (context_function (function_context s.manager)) s
