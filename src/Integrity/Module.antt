-- ===== src/Integrity/Module.antt =====
-- `processModule` keeps integrity and leaves the stack of contexts as it found it.
use cclyzerpp.Prelude.{
  ℕ, Text, Bool, true, false, Option, none, some, List, [], ◌∷◌, ◌≡◌, refl, map, Occurs, ◌∙◌, ◌⊎◌,
  inl, inr, subst, Bool-cases,
}
use cclyzerpp.Context.{new_manager, frame}
use cclyzerpp.Ir.{
  Value, Instruction, Block, Function, GlobalVariable, GlobalAlias, Module, Constant,
}
use cclyzerpp.Refmode.Stack.{block_refmode-KeepsStack, global_value_refmode-KeepsStack}
use cclyzerpp.Externals.{Externals}
use cclyzerpp.Signatures.{Component, Document}
use cclyzerpp.Predicates.{Predicate}
use cclyzerpp.Constants.{write_constant}
use cclyzerpp.Functions.{write_param, write_definition, write_function}
use cclyzerpp.Globals.{write_global_var, write_global_alias}
use cclyzerpp.Generate.{
  write_target, process_instruction, process_instructions, name_or_throw, write_label,
  write_predecessor, process_block, process_blocks, process_body, process_function, process_global,
  process_alias, process_module,
}
use cclyzerpp.Gen.{
  Gen, State, Fact, str, final, write_fact, ◌>>=◌, pure, for_each, Outcome, done, stopped, continue,
  ends_process, process_has_ended, enter_module,
}
use cclyzerpp.Integrity.{refers, HasIntegrity, frames}
use cclyzerpp.Integrity.Relation.{Advances-refl, Moves, Ran, Ran-Grows, Ran-after}
use cclyzerpp.Integrity.Rules.{
  Safe, Safe-write, Safe-pure, Safe-stop, Safe-bind, Safe-operand, Safe-for_each,
}
use cclyzerpp.Integrity.Constants.{operand_rules, write_constant-Safe, write_constant-Supplies}
use cclyzerpp.Integrity.Instructions.{visit-Safe, write_calling_conv-Safe}
use cclyzerpp.Integrity.Contexts.{Safe-in_block, Safe-in_instruction, in_function-Ran}
use cclyzerpp.Integrity.Signatures.{emit_matching-Safe, process_signatures-Safe}
use cclyzerpp.Integrity.Variables.{write_local_variables-Safe}

ruleset module_rules = (
  operand_rules, Safe-write, write_constant-Safe, block_refmode-KeepsStack,
  global_value_refmode-KeepsStack, visit-Safe, write_calling_conv-Safe,
)

-- A constant written for a column of its own.
constant_column-Safe :
    (x : Externals) (p : Predicate) (k : Text) (c : Constant)
    → Safe (write_constant x c >>= λ r. write_fact p k (str r ∷ []))
constant_column-Safe x p k c =
    Safe-operand p k (λ r. str r ∷ []) (λ r. refl) _ (write_constant-Safe x c)
      (write_constant-Supplies x c)

write_param-Safe : (k : Text) (i : ℕ) (v : Value) → Safe (write_param k i v)
unfolding write_param refers
write_param-Safe k i v = search module_rules depth 8

write_definition-Safe : (f : Function) (k : Text) → Safe (write_definition f k)
unfolding write_definition refers
write_definition-Safe f k = search (module_rules, write_param-Safe) depth 8

pub write_function-Safe : (x : Externals) (f : Function) (k : Text) → Safe (write_function x f k)
unfolding write_function refers
write_function-Safe x f k =
    search (module_rules, constant_column-Safe, write_definition-Safe) depth 24

write_global_var-Safe :
    (x : Externals) (gv : GlobalVariable) (k : Text) → Safe (write_global_var x gv k)
unfolding write_global_var refers
write_global_var-Safe x gv k = search (module_rules, constant_column-Safe) depth 30

write_global_alias-Safe :
    (x : Externals) (ga : GlobalAlias) (k : Text) → Safe (write_global_alias x ga k)
unfolding write_global_alias refers
write_global_alias-Safe x ga k = search (module_rules, constant_column-Safe) depth 24

process_global-Safe : (x : Externals) (gv : GlobalVariable) → Safe (process_global x gv)
unfolding process_global
process_global-Safe x gv = search (module_rules, write_global_var-Safe) depth 8

process_alias-Safe : (x : Externals) (ga : GlobalAlias) → Safe (process_alias x ga)
unfolding process_alias
process_alias-Safe x ga = search (module_rules, write_global_alias-Safe) depth 8

name_or_throw-Safe : (n : Option Text) → Safe (name_or_throw n)
unfolding name_or_throw
name_or_throw-Safe none = Safe-stop _
name_or_throw-Safe (some n) = Safe-pure n

write_label-Safe : (f : Function) (v : Value) → Safe (write_label f v)
unfolding write_label refers
write_label-Safe f v = search (module_rules, name_or_throw-Safe) depth 16

write_predecessor-Safe : (k : Text) (v : Value) → Safe (write_predecessor k v)
unfolding write_predecessor refers
write_predecessor-Safe k v = search module_rules depth 8

module _ (x : Externals) (funcref : Text) where
  write_target-Safe : (i : Instruction) (k : Text) → Safe (write_target i k)
  unfolding write_target refers
  write_target-Safe i k = search module_rules depth 10

  process_instruction-Safe :
      (b : Block) (i : Instruction) (prev : Option Text)
      → Safe (process_instruction x funcref b i prev)
  unfolding process_instruction refers
  process_instruction-Safe b i prev = search (module_rules, write_target-Safe) depth 24

  process_instructions-Safe :
      (b : Block) (is : List Instruction) (prev : Option Text)
      → Safe (process_instructions x funcref b is prev)
  unfolding process_instructions
  process_instructions-Safe b [] prev = Safe-pure prev
  process_instructions-Safe b (i ∷ is) prev =
      Safe-bind _ _ (Safe-in_instruction _ (process_instruction-Safe b i prev) i.value)
        (λ iref. process_instructions-Safe b is (some iref))

  pub process_block-Safe :
      (f : Function) (b : Block) (prev : Option Text) → Safe (process_block x funcref f b prev)
  unfolding process_block
  process_block-Safe f b prev =
      search (module_rules, write_label-Safe, write_predecessor-Safe, process_instructions-Safe)
        depth 8

  pub process_blocks-Safe :
      (f : Function) (bs : List Block) (prev : Option Text)
      → Safe (process_blocks x funcref f bs prev)
  unfolding process_blocks
  process_blocks-Safe f [] prev = Safe-pure tt
  process_blocks-Safe f (b ∷ bs) prev =
      Safe-bind _ _ (Safe-in_block _ (process_block-Safe f b prev) b.value)
        (λ prev'. process_blocks-Safe f bs prev')

process_body-Safe :
    (x : Externals) (f : Function) (k : Text) (b : Bool) → Safe (process_body x f k b)
unfolding process_body
process_body-Safe x f k true = Safe-pure tt
process_body-Safe x f k false =
    Safe-bind _ _ (process_blocks-Safe x k f f.blocks none) (λ u. write_local_variables-Safe)

-- Outside every function.
pub process_function-Ran :
    (x : Externals) (sigs : List (Text × List Component)) (f : Function) (s : State)
    → s.manager.function_index ≡ none
    → Ran s (process_function x sigs f s)
unfolding process_function
process_function-Ran x sigs f s =
    in_function-Ran _
      (search (module_rules, write_function-Safe, emit_matching-Safe, process_body-Safe) depth 10) f
      s

-- Behind a safe method, outside every function.
module _ {A B : Type 0} (m : Gen A) (f : A → Gen B) (h : Safe m)
    (k : (a : A) (t : State) → t.manager.function_index ≡ none → Ran t (f a t)) where
  outside_continue :
      (s : State) (o : Outcome A) → s.manager.function_index ≡ none → Ran s o → Ran s (continue f o)
  outside_continue s (done a t) e v = Ran-after s t (f a t) v (k a t (v.same_function ∙ e))
  outside_continue s (stopped x t) e v = v

  outside_bind : (s : State) → s.manager.function_index ≡ none → Ran s ((m >>= f) s)
  unfolding ◌>>=◌
  outside_bind s e = outside_continue s (m s) e (h.at s)

functions-Ran :
    (x : Externals) (sigs : List (Text × List Component)) (fs : List Function) (s : State)
    → s.manager.function_index ≡ none
    → Ran s (for_each fs (process_function x sigs) s)
unfolding for_each ◌>>=◌ pure
functions-Ran x sigs [] s e = Advances-refl s
functions-Ran x sigs (f ∷ fs) s e =
    step (process_function x sigs f s) (process_function-Ran x sigs f s e) (functions-Ran x sigs fs)
  where
    step :
        (o : Outcome (Unit {0}))
        → Ran s o
        → ((t : State)
            → t.manager.function_index ≡ none
            → Ran t (for_each fs (process_function x sigs) t))
        → Ran s (continue (λ u. for_each fs (process_function x sigs)) o)
    step (done u t) a ih = Ran-after s t _ a (ih t (a.same_function ∙ e))
    step (stopped y t) a ih = a

-- The state behind `enterModule`.
abbrev pub entered : Text → State → State
entered path s = record s { manager = new_manager path }

-- From the entered module on, whatever the outcome.
pub process_module-Ran :
    (x : Externals) (m : Module) (path : Text) (sigs : Option (Text × Document))
    (sensitivity : Text) (s : State)
    → Ran (entered path s) (process_module x m path sigs sensitivity s)
unfolding process_module enter_module ◌>>=◌ new_manager refers
process_module-Ran x m path sigs sensitivity s =
    outside_bind _ _ (process_signatures-Safe x sigs)
      (λ table. outside_bind _ _ (Safe-for_each m.globals _ (process_global-Safe x)) (λ u.
        outside_bind _ _ (Safe-for_each m.aliases _ (process_alias-Safe x))
          (λ v. outside_bind _ _ (Safe-write _ _ _ refl) (λ w. functions-Ran x table m.functions))))
      (entered path s) refl

-- Whatever the outcome, every operand column names a declared entity, if that held before.
pub process_module-HasIntegrity :
    (x : Externals) (m : Module) (path : Text) (sigs : Option (Text × Document))
    (sensitivity : Text) (s : State)
    → HasIntegrity s
    → HasIntegrity (final (process_module x m path sigs sensitivity s))
process_module-HasIntegrity x m path sigs sensitivity s h =
    (Ran-Grows _ _ (process_module-Ran x m path sigs sensitivity s)).sound h

outcome-balanced :
    (path : Text) (s : State) (o : Outcome (Unit {0}))
    → Ran (entered path s) o
    → (process_has_ended o ≡ true)
      ⊎ ((frames (final o) ≡ map frame (new_manager path).contexts)
          × ((final o).manager.function_index ≡ none))
unfolding process_has_ended new_manager
outcome-balanced path s (done a t) r = inr (r.same_frames, r.same_function)
outcome-balanced path s (stopped e t) r = elim (Bool-cases (ends_process e)) [
  | inl h ↦ inl h
  | inr h ↦
      let a : Moves false (entered path s) t = subst (λ b. Moves b (entered path s) t) h r in
      inr (a.same_frames, a.same_function)
]

-- Whatever the outcome, the facts written before stay; and unless the process has stopped by `exit` or
-- by a read through a null pointer, the stack of contexts is back at the module's own context, with no
-- function entered.
pub process_module-balanced :
    (x : Externals) (m : Module) (path : Text) (sigs : Option (Text × Document))
    (sensitivity : Text) (s : State)
    → ((f : Fact)
        → Occurs f s.log
        → Occurs f (final (process_module x m path sigs sensitivity s)).log)
      × ((process_has_ended (process_module x m path sigs sensitivity s) ≡ true)
          ⊎ ((frames (final (process_module x m path sigs sensitivity s))
                ≡ map frame (new_manager path).contexts)
              × ((final (process_module x m path sigs sensitivity s)).manager.function_index
                  ≡ none)))
process_module-balanced x m path sigs sensitivity s =
    let r = process_module-Ran x m path sigs sensitivity s in
    ((Ran-Grows _ _ r).facts, outcome-balanced path s _ r)
