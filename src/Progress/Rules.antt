-- ===== src/Progress/Rules.antt =====
-- One rule for each way to build a method of the generator, for `Answers`: it returns in every state.
use cclyzerpp.Prelude.{
  ℕ, suc, Text, Bool, true, false, Option, none, some, List, [], ◌∷◌, ◌≡◌, refl, if◌then◌else◌,
}
use cclyzerpp.Predicates.{Predicate}
use cclyzerpp.Ir.{LlvmType}
use cclyzerpp.Context.{ContextManager, Anchor}
use cclyzerpp.Gen.{
  Field, State, Outcome, done, stopped, Gen, pure, returns, continue, ◌>>=◌, when, when_some,
  for_each, for_indexed, write_fact, record_variable, insert_type, record_type, save_result,
  refmode, instruction_ref, unknown, current_function, in_context, leave_outcome,
}

pub record Answers {A : Type 0} (m : Gen A) : Type 0 where
  pub at : (s : State) → returns (m s) ≡ true

pub Answers-pure : {A : Type 0} (a : A) → Answers (pure a)
unfolding pure returns
Answers-pure a = record { at = λ s. refl }

module _ {A B : Type 0} where
  returns-continue :
      (f : A → Gen B) (o : Outcome A)
      → ((a : A) → Answers (f a))
      → returns o ≡ true
      → returns (continue f o) ≡ true
  unfolding returns
  returns-continue f (done a t) h k = (h a).at t
  returns-continue f (stopped e t) h k = cc

  pub Answers-bind :
      (m : Gen A) (f : A → Gen B) → Answers m → ((a : A) → Answers (f a)) → Answers (m >>= f)
  unfolding ◌>>=◌
  Answers-bind m f hm hf = record { at = λ s. returns-continue f (m s) hf (hm.at s) }

pub Answers-when : (b : Bool) (m : Gen (Unit {0})) → Answers m → Answers (when b m)
unfolding when
Answers-when true m h = h
Answers-when false m h = Answers-pure tt

pub Answers-when_some :
    {A : Type 0} (o : Option A) (f : A → Gen (Unit {0}))
    → ((a : A) → Answers (f a))
    → Answers (when_some o f)
unfolding when_some
Answers-when_some none f h = Answers-pure tt
Answers-when_some (some a) f h = h a

pub Answers-for_each :
    {A : Type 0} (xs : List A) (f : A → Gen (Unit {0}))
    → ((a : A) → Answers (f a))
    → Answers (for_each xs f)
unfolding for_each
Answers-for_each [] f h = Answers-pure tt
Answers-for_each (x ∷ xs) f h = Answers-bind _ _ (h x) (λ u. Answers-for_each xs f h)

pub Answers-for_indexed :
    {A : Type 0} (n : ℕ) (xs : List A) (f : ℕ → A → Gen (Unit {0}))
    → ((i : ℕ) (a : A) → Answers (f i a))
    → Answers (for_indexed n xs f)
unfolding for_indexed
Answers-for_indexed n [] f h = Answers-pure tt
Answers-for_indexed n (x ∷ xs) f h =
    Answers-bind _ _ (h n x) (λ u. Answers-for_indexed (suc n) xs f h)

pub Answers-if :
    {A : Type 0} (b : Bool) (m n : Gen A) → Answers m → Answers n → Answers (if b then m else n)
Answers-if true m n hm hn = hm
Answers-if false m n hm hn = hn

pub Answers-write :
    (p : Predicate) (k : Text) (fields : List Field) → Answers (write_fact p k fields)
unfolding write_fact returns
Answers-write p k fields = record { at = λ s. refl }

pub Answers-record_variable : (k : Text) (t : LlvmType) → Answers (record_variable k t)
unfolding record_variable returns
Answers-record_variable k t = record { at = λ s. refl }

pub Answers-insert_type : (t : LlvmType) → Answers (insert_type t)
unfolding insert_type returns
Answers-insert_type t = record { at = λ s. refl }

pub Answers-record_type : (t : LlvmType) → Answers (record_type t)
unfolding record_type
Answers-record_type t = Answers-bind _ _ (Answers-insert_type t) (λ u. Answers-pure _)

pub Answers-save_result : (k : Text) (v : ℕ) → Answers (save_result k v)
unfolding save_result returns
Answers-save_result k v = record { at = λ s. refl }

pub Answers-refmode : (f : ContextManager → Text × ContextManager) → Answers (refmode f)
unfolding refmode returns
Answers-refmode f = record { at = λ s. refl }

pub Answers-instruction_ref : Answers instruction_ref
unfolding instruction_ref returns
Answers-instruction_ref = record { at = λ s. refl }

pub Answers-unknown : (a b : Text) → Answers (unknown a b)
unfolding unknown returns
Answers-unknown a b = record { at = λ s. refl }

pub Answers-current_function : Answers current_function
unfolding current_function returns
Answers-current_function = record { at = λ s. refl }

pub returns-leave_outcome :
    {A : Type 0} (o : Outcome A) → returns o ≡ true → returns (leave_outcome o) ≡ true
unfolding returns leave_outcome
returns-leave_outcome (done a s) h = refl
returns-leave_outcome (stopped e s) h = h

pub Answers-in_context :
    {A : Type 0} (a : Anchor) (m : Gen A) → Answers m → Answers (in_context a m)
unfolding in_context
Answers-in_context a m h = record { at = λ s. returns-leave_outcome _ (h.at _) }

pub ruleset answer_rules = (
  Answers-pure, Answers-bind, Answers-when, Answers-when_some, Answers-for_each,
  Answers-for_indexed, Answers-if, Answers-write, Answers-record_variable, Answers-insert_type,
  Answers-record_type, Answers-save_result, Answers-refmode, Answers-instruction_ref,
  Answers-unknown, Answers-current_function, Answers-in_context,
)
