-- ===== src/Integrity/Declared.antt =====
-- FactGenerator/src/FactGenerator.cpp, `processModule` without a file of signatures: when it
-- returns, no variable waits to be written, so the facts themselves declare every operand.
use cclyzerpp.Prelude.{Text, false, none, List, [], ◌∷◌, ◌≡◌, refl, ◌⊎◌, inl, inr, Occurs, subst}
use cclyzerpp.Predicates.{constant, variable}
use cclyzerpp.Ir.{Function, Module}
use cclyzerpp.Signatures.{Component}
use cclyzerpp.Externals.{Externals}
use cclyzerpp.Variables.{write_local_variables, clear_variables}
use cclyzerpp.Generate.{
  process_body, process_function, process_module, process_signatures, emit_matching,
}
use cclyzerpp.Gen.{
  Fact, State, Outcome, done, stopped, Gen, final, continue, ◌>>=◌, for_each, pure, in_context,
  leave_outcome, has_variable,
}
use cclyzerpp.Integrity.{entity, references, Known, HasIntegrity}
use cclyzerpp.Integrity.Module.{process_module-HasIntegrity}

-- Where the computation returns, no variable waits.
abbrev Cleared : {A : Type 0} → Outcome A → Type 0
Cleared (done a s) = s.variable_types ≡ []
Cleared (stopped e s) = Unit

-- A computation that ends with a clearing one.
Cleared-continue :
    {A B : Type 0} (f : A → Gen B)
    → ((a : A) (s : State) → Cleared (f a s))
    → (o : Outcome A) → Cleared (continue f o)
Cleared-continue f h (done a s) = h a s
Cleared-continue f h (stopped e s) = tt

Cleared-bind :
    {A B : Type 0} (m : Gen A) (f : A → Gen B)
    → ((a : A) (s : State) → Cleared (f a s))
    → (s : State) → Cleared ((m >>= f) s)
unfolding ◌>>=◌
Cleared-bind m f h s = Cleared-continue f h (m s)

clear-Cleared : (s : State) → Cleared (clear_variables s)
unfolding clear_variables
clear-Cleared s = refl

write_local_variables-Cleared : (s : State) → Cleared (write_local_variables s)
unfolding write_local_variables
write_local_variables-Cleared =
    Cleared-bind _ _
      (λ f. Cleared-bind _ _ (λ f'. Cleared-bind _ _ (λ vs. Cleared-bind _ _ (λ u. clear-Cleared))))

leave-Cleared : {A : Type 0} (o : Outcome A) → Cleared o → Cleared (leave_outcome o)
unfolding leave_outcome
leave-Cleared (done a s) h = h
leave-Cleared (stopped e s) h = tt

process_body-Cleared :
    (x : Externals) (f : Function) (k : Text) (s : State) → Cleared (process_body x f k false s)
unfolding process_body
process_body-Cleared x f k = Cleared-bind _ _ (λ u. write_local_variables-Cleared)

-- Without signatures, no function matches.
unmatched-Cleared :
    (x : Externals) (f : Function) (k n : Text) (s : State)
    → Cleared ((emit_matching x n [] >>= process_body x f k) s)
unfolding emit_matching pure ◌>>=◌
unmatched-Cleared x f k n = process_body-Cleared x f k

process_function-Cleared :
    (x : Externals) (f : Function) (s : State) → Cleared (process_function x [] f s)
unfolding process_function in_context
process_function-Cleared x f s = leave-Cleared _ (
    Cleared-bind _ _
      (λ r. Cleared-bind _ _ (λ u. Cleared-bind _ _ (λ v. unmatched-Cleared x f r _))) _)

functions-Cleared :
    (x : Externals) (f : Function) (fs : List Function) (s : State)
    → Cleared (for_each (f ∷ fs) (process_function x []) s)
unfolding for_each pure ◌>>=◌
functions-Cleared x f [] s = step (process_function x [] f s) (process_function-Cleared x f s)
  where
    step :
        (o : Outcome (Unit {0}))
        → Cleared o
        → Cleared (continue (λ u. for_each [] (process_function x [])) o)
    step (done u t) h = h
    step (stopped e t) h = tt
functions-Cleared x f (g ∷ fs) s =
    Cleared-continue _ (λ u. functions-Cleared x g fs) (process_function x [] f s)

-- The signatures of no file are none.
no_signatures-Cleared :
    {B : Type 0} (x : Externals) (k : List (Text × List Component) → Gen B)
    → ((s : State) → Cleared (k [] s))
    → (s : State) → Cleared ((process_signatures x none >>= k) s)
unfolding process_signatures ◌>>=◌ pure
no_signatures-Cleared x k h = h

process_module-Cleared :
    (x : Externals) (m : Module) (f : Function) (fs : List Function) (path sensitivity : Text)
    (s : State)
    → m.functions ≡ f ∷ fs
    → Cleared (process_module x m path none sensitivity s)
unfolding process_module
process_module-Cleared x m f fs path sensitivity s e = rw e (
    Cleared-bind _ _
      (λ u. no_signatures-Cleared x _ (
        Cleared-bind _ _
          (λ v. Cleared-bind _ _ (λ w. Cleared-bind _ _ (λ z. functions-Cleared x f fs)))))
      s)

-- What is known where no variable waits is declared by a fact.
declared :
    (s : State) (r : Text)
    → s.variable_types ≡ []
    → Known s r
    → Occurs (entity constant.id r) s.log ⊎ Occurs (entity variable.id r) s.log
unfolding has_variable
declared s r e (inl m) = inl m
declared s r e (inr (inl m)) = inr m
declared s r e (inr (inr h)) = cc (rw e at h)

-- When `processModule`, given a module with at least one function and no signatures, returns, each
-- operand column of each fact names a constant or a variable that a fact declares, if the facts
-- before had integrity.
pub process_module-declared :
    (x : Externals) (m : Module) (f : Function) (fs : List Function) (path sensitivity : Text)
    (s t : State) (u : Unit {0}) (fact : Fact) (r : Text)
    → m.functions ≡ f ∷ fs
    → HasIntegrity s
    → process_module x m path none sensitivity s ≡ done u t
    → Occurs fact t.log
    → Occurs r (references fact)
    → Occurs (entity constant.id r) t.log ⊎ Occurs (entity variable.id r) t.log
process_module-declared x m f fs path sensitivity s t u fact r e h d o o' =
    declared t r (subst Cleared d (process_module-Cleared x m f fs path sensitivity s e)) (
      subst (λ o. HasIntegrity (final o)) d
        (process_module-HasIntegrity x m path none sensitivity s h) fact o r o')
