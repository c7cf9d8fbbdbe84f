-- ===== src/Integrity/Variables.antt =====
-- Writing the variables of a function declares each of them, so that clearing the map forgets no
-- entity.
use cclyzerpp.Prelude.{
  Text, text_eq, text_eq_sound, true, Option, none, some, List, [], ◌∷◌, ◌≡◌, refl, ◌⊎◌, inl, inr,
  Occurs, Bool-cases, Option-cases, suffix_from_last, ◌∙◌, subst,
}
use cclyzerpp.Predicates.{Predicate, variable}
use cclyzerpp.Ir.{LlvmType, Function}
use cclyzerpp.Context.{get_name}
use cclyzerpp.Variables.{
  write_variable, write_local_variables, get_variables, clear_variables, require_function, is_sigil,
}
use cclyzerpp.Gen.{
  State, Outcome, done, stopped, Gen, final, continue, returns, ◌>>=◌, ◌>>◌, for_each, write_fact,
  has_variable, pure, record_type, insert_type, when_some, stop, current_function,
}
use cclyzerpp.Integrity.{refers, entity, Known}
use cclyzerpp.Integrity.Relation.{Advances, Ran, Moves-refl}
use cclyzerpp.Integrity.Rules.{Safe, Safe-Grows, Safe-for_each, Safe-write}
use cclyzerpp.Integrity.Constants.{safe_rules}

pub write_variable-Safe : (n : Text) (v : Text × LlvmType) → Safe (write_variable n v)
unfolding write_variable refers
write_variable-Safe n v = search (safe_rules, Safe-write) depth 12

-- The map's keys among a list of variables are declared.
abbrev Declares : List (Text × LlvmType) → State → Type 0
Declares vars s = (r : Text) → has_variable r vars ≡ true → Occurs (entity variable.id r) s.log

abbrev DeclaresIn : {A : Type 0} → List (Text × LlvmType) → Outcome A → Type 0
DeclaresIn vars (done a s) = Declares vars s
DeclaresIn vars (stopped e s) = Unit

-- An entity that is written stays written.
entity_first :
    {A : Type 0} (p : Predicate) (r : Text) (m : Gen A)
    → Safe m
    → (s : State) → Occurs (entity p r) (final ((write_fact p r [] >> m) s)).log
unfolding ◌>>=◌ write_fact
entity_first p r m h s = (Safe-Grows m h _).facts (entity p r) (inl refl)

write_variable-entity :
    (n : Text) (v : Text × LlvmType) (s : State)
    → Occurs (entity variable.id v.0) (final (write_variable n v s)).log
unfolding write_variable refers
write_variable-entity n v s =
    entity_first variable.id v.0 _ (search (safe_rules, Safe-write) depth 12) s

has_variable_cons :
    (r : Text) (v : Text × LlvmType) (vs : List (Text × LlvmType))
    → has_variable r (v ∷ vs) ≡ true
    → (v.0 ≡ r) ⊎ (has_variable r vs ≡ true)
unfolding has_variable
has_variable_cons r (k, t) vs h = elim (Bool-cases (text_eq k r)) [
  | inl same ↦ inl (text_eq_sound k r same)
  | inr other ↦ inr (rw other at h)
]

module _ (n : Text) where
  DeclaresIn-after :
      (v : Text × LlvmType) (vs : List (Text × LlvmType)) (o : Outcome (Unit {0}))
      → Occurs (entity variable.id v.0) (final o).log
      → ((s : State) → DeclaresIn vs (for_each vs (write_variable n) s))
      → DeclaresIn (v ∷ vs) (continue (λ u. for_each vs (write_variable n)) o)
  DeclaresIn-after v vs (stopped e s) m ih = tt
  DeclaresIn-after v vs (done u s) m ih =
      DeclaresIn-step (for_each vs (write_variable n) s) (ih s)
        ((Safe-for_each vs (write_variable n) (write_variable-Safe n)).at s)
    where
      DeclaresIn-step : (o : Outcome (Unit {0})) → DeclaresIn vs o → Ran s o → DeclaresIn (v ∷ vs) o
      DeclaresIn-step (stopped e t) d a = tt
      DeclaresIn-step (done w t) d a = λ r h. elim (has_variable_cons r v vs h) [
        | inl same ↦
            a.facts (entity variable.id r) (subst (λ k. Occurs (entity variable.id k) s.log) same m)
        | inr later ↦ d r later
      ]

  for_each-DeclaresIn :
      (vs : List (Text × LlvmType)) (s : State) → DeclaresIn vs (for_each vs (write_variable n) s)
  unfolding for_each has_variable ◌>>=◌ pure
  for_each-DeclaresIn [] s = λ r h. cc
  for_each-DeclaresIn (v ∷ vs) s =
      DeclaresIn-after v vs (write_variable n v s) (write_variable-entity n v s)
        (for_each-DeclaresIn vs)

-- Clearing the map behind the loop.
clear-Advances :
    (s t : State)
    → Advances s t
    → t.variable_types ≡ s.variable_types
    → Declares s.variable_types t
    → Advances s (record t { variable_types = [] })
unfolding has_variable
clear-Advances s t a same d = record {
  facts = a.facts;
  known = λ r k. forget r (a.known r k);
  sound = λ h. λ f m r o. forget r (a.sound h f m r o);
  same_frames = a.same_frames;
  same_function = a.same_function;
}
  where
    forget : (r : Text) → Known t r → Known (record t { variable_types = [] }) r
    forget r (inl m) = inl m
    forget r (inr (inl m)) = inr (inl m)
    forget r (inr (inr h)) = inr (inl (d r (subst (λ v. has_variable r v ≡ true) same h)))

variables-write_variable :
    (n : Text) (v : Text × LlvmType) (s : State)
    → (final (write_variable n v s)).variable_types ≡ s.variable_types
unfolding write_variable ◌>>=◌ write_fact record_type insert_type pure when_some
variables-write_variable n v s = elim (Option-cases (suffix_from_last is_sigil v.0)) [
  | inl e ↦ rw e
  | inr (t, e) ↦ rw e
]

variables-for_each :
    (n : Text) (vs : List (Text × LlvmType)) (s : State)
    → (final (for_each vs (write_variable n) s)).variable_types ≡ s.variable_types
unfolding for_each ◌>>=◌ pure
variables-for_each n [] s = refl
variables-for_each n (v ∷ vs) s =
    step (write_variable n v s) (variables-write_variable n v s) (variables-for_each n vs)
  where
    step :
        (o : Outcome (Unit {0}))
        → (final o).variable_types ≡ s.variable_types
        → ((t : State)
            → (final (for_each vs (write_variable n) t)).variable_types ≡ t.variable_types)
        → (final (continue (λ u. for_each vs (write_variable n)) o)).variable_types
          ≡ s.variable_types
    step (done u t) e ih = ih t ∙ e
    step (stopped x t) e ih = e

-- The end of `writeLocalVariables`, behind the loop.
Ran-clear :
    (s : State) (o : Outcome (Unit {0}))
    → Ran s o
    → (final o).variable_types ≡ s.variable_types
    → DeclaresIn s.variable_types o
    → Ran s (continue (λ u. clear_variables) o)
unfolding clear_variables
Ran-clear s (done u t) a e d = clear-Advances s t a e d
Ran-clear s (stopped x t) a e d = a

with_function-Safe :
    (f : Option Function) (s : State)
    → Ran s (
        (do
          f' ← require_function f
          vars ← get_variables
          for_each vars (write_variable (b'@' ∷ get_name f'.value))
          clear_variables)
          s)
unfolding ◌>>=◌ require_function get_variables stop pure
with_function-Safe none s = Moves-refl true s
with_function-Safe (some f) s =
    Ran-clear s _
      ((Safe-for_each s.variable_types _ (write_variable-Safe (b'@' ∷ get_name f.value))).at s)
      (variables-for_each _ s.variable_types s) (for_each-DeclaresIn _ s.variable_types s)

pub write_local_variables-Safe : Safe write_local_variables
unfolding write_local_variables ◌>>=◌ current_function
write_local_variables-Safe = record { at = λ s. with_function-Safe _ s }

-- The outcome of `writeLocalVariables` returns, declares the variables and clears the map.
abbrev pub Written : List (Text × LlvmType) → Outcome (Unit {0}) → Type 0
Written vars (done u s) = Declares vars s × (s.variable_types ≡ [])
Written vars (stopped e s) = ⊥

write_variable-returns :
    (n : Text) (v : Text × LlvmType) (s : State) → returns (write_variable n v s) ≡ true
unfolding write_variable returns ◌>>=◌ write_fact record_type insert_type pure when_some
write_variable-returns n v s = elim (Option-cases (suffix_from_last is_sigil v.0)) [
  | inl e ↦ rw e
  | inr (t, e) ↦ rw e
]

for_each-returns :
    (n : Text) (vs : List (Text × LlvmType)) (s : State)
    → returns (for_each vs (write_variable n) s) ≡ true
unfolding for_each ◌>>=◌ pure returns
for_each-returns n [] s = refl
for_each-returns n (v ∷ vs) s =
    step (write_variable n v s) (write_variable-returns n v s) (for_each-returns n vs)
  where
    step :
        (o : Outcome (Unit {0}))
        → returns o ≡ true
        → ((t : State) → returns (for_each vs (write_variable n) t) ≡ true)
        → returns (continue (λ u. for_each vs (write_variable n)) o) ≡ true
    step (done u t) h ih = ih t
    step (stopped e t) h ih = cc

Written-clear :
    (vars : List (Text × LlvmType)) (o : Outcome (Unit {0}))
    → returns o ≡ true
    → DeclaresIn vars o
    → Written vars (continue (λ u. clear_variables) o)
unfolding clear_variables returns
Written-clear vars (done u t) h d = (d, refl)
Written-clear vars (stopped e t) h d = cc

-- Inside a function, `writeLocalVariables` returns; it has declared every variable of the map, and
-- the map is empty.
pub write_local_variables-Written :
    (s : State) (f : Function)
    → current_function s ≡ done (some f) s
    → Written s.variable_types (write_local_variables s)
unfolding write_local_variables ◌>>=◌ require_function get_variables pure
write_local_variables-Written s f e = rw e (
    Written-clear s.variable_types _ (for_each-returns (b'@' ∷ get_name f.value) s.variable_types s)
      (for_each-DeclaresIn (b'@' ∷ get_name f.value) s.variable_types s))
