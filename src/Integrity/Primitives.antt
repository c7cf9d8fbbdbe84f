-- ===== src/Integrity/Primitives.antt =====
-- The rules for the methods that touch one component of the state.
use cclyzerpp.Prelude.{
  ℕ, Text, text_eq, text_eq_refl, true, List, [], ◌∷◌, ◌≡◌, refl, inl, inr, arith, Bool-cases,
}
use cclyzerpp.Ir.{LlvmType}
use cclyzerpp.Context.{ContextManager}
use cclyzerpp.Refmode.Stack.{KeepsStack}
use cclyzerpp.Gen.{
  State, has_variable, assign_variable, record_variable, insert_type, record_type, save_result,
  refmode, instruction_ref, unknown, current_function,
}
use cclyzerpp.Integrity.{Known, frames}
use cclyzerpp.Integrity.Relation.{Advances, Advances-refl}
use cclyzerpp.Integrity.Rules.{Safe, Safe-bind, Safe-pure}

-- A change of fields that integrity does not read.
Advances-same :
    (s t : State)
    → t.log ≡ s.log
    → t.variable_types ≡ s.variable_types
    → frames t ≡ frames s
    → t.manager.function_index ≡ s.manager.function_index
    → Advances s t
Advances-same s t l v f i = record {
  facts = λ g. rw l (λ m. m);
  known = λ r. rw (l, v) (λ k. k);
  sound = rw (l, v) (λ h. h);
  same_frames = f;
  same_function = i;
}

pub Safe-insert_type : (t : LlvmType) → Safe (insert_type t)
unfolding insert_type
Safe-insert_type t = record { at = λ s. Advances-same s _ refl refl refl refl }

pub Safe-record_type : (t : LlvmType) → Safe (record_type t)
unfolding record_type
Safe-record_type t = Safe-bind _ _ (Safe-insert_type t) (λ u. Safe-pure _)

pub Safe-save_result : (k : Text) (v : ℕ) → Safe (save_result k v)
unfolding save_result
Safe-save_result k v = record { at = λ s. Advances-same s _ refl refl refl refl }

pub Safe-unknown : (a b : Text) → Safe (unknown a b)
unfolding unknown
Safe-unknown a b = record { at = λ s. Advances-same s _ refl refl refl refl }

pub Safe-instruction_ref : Safe instruction_ref
unfolding instruction_ref
Safe-instruction_ref = record { at = λ s. Advances-refl s }

pub Safe-current_function : Safe current_function
unfolding current_function
Safe-current_function = record { at = λ s. Advances-refl s }

pub has_variable-assign_self :
    (k : Text) (t : LlvmType) (m : List (Text × LlvmType))
    → has_variable k (assign_variable k t m) ≡ true
unfolding has_variable assign_variable
has_variable-assign_self k t [] = rw (text_eq_refl k)
has_variable-assign_self k t ((j, u) ∷ m) = elim (Bool-cases (text_eq j k)) [
  | inl same ↦ rw (same, same)
  | inr other ↦ rw (other, other) (has_variable-assign_self k t m)
]

has_variable-assign :
    (k : Text) (t : LlvmType) (r : Text) (m : List (Text × LlvmType))
    → has_variable r m ≡ true
    → has_variable r (assign_variable k t m) ≡ true
unfolding has_variable assign_variable
has_variable-assign k t r [] h = cc
has_variable-assign k t r ((j, u) ∷ m) h = ground (arith, has_variable-assign k t r m)

pub Safe-record_variable : (k : Text) (t : LlvmType) → Safe (record_variable k t)
unfolding record_variable
Safe-record_variable k t = record {
  at = λ s. record {
    facts = λ f m. m;
    known = λ r. known s r;
    sound = λ h f m r o. known s r (h f m r o);
    same_frames = refl;
    same_function = refl;
  };
}
  where
    known :
        (s : State) (r : Text)
        → Known s r
        → Known (record s { variable_types = assign_variable k t s.variable_types }) r
    known s r (inl m) = inl m
    known s r (inr (inl m)) = inr (inl m)
    known s r (inr (inr m)) = inr (inr (has_variable-assign k t r s.variable_types m))

pub Safe-refmode : (f : ContextManager → Text × ContextManager) → KeepsStack f → Safe (refmode f)
unfolding refmode
Safe-refmode f k = record {
  at = λ s. Advances-same s _ refl refl (k.stack s.manager) (k.index s.manager);
}
