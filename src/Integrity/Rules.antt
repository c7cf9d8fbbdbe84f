-- ===== src/Integrity/Rules.antt =====
-- One rule for each way to build a method of the generator, for `Safe` (it advances the state) and
-- `Supplies` (the refmode that it returns is known).
use cclyzerpp.Prelude.{
  ℕ, suc, Text, Bool, true, false, Option, none, some, List, [], ◌∷◌, ◌≡◌, refl, sym, subst, inl,
  inr, Occurs, if◌then◌else◌,
}
use cclyzerpp.Predicates.{Predicate, constant}
use cclyzerpp.Gen.{
  Field, State, Failure, Outcome, done, stopped, Gen, ends_process, pure, stop, final, continue,
  ◌>>=◌, ◌>>◌, when, when_some, for_each, for_indexed, write_fact,
}
use cclyzerpp.Integrity.{refers, last_text, entity, Known}
use cclyzerpp.Integrity.Relation.{
  Advances, Advances-refl, Advances-trans, Advances-fact, Ran, Ran-after, Moves-refl, Grows,
  Ran-Grows,
}

pub record Safe {A : Type 0} (m : Gen A) : Type 0 where
  pub at : (s : State) → Ran s (m s)

-- Whatever the outcome, the facts are kept.
pub Safe-Grows : {A : Type 0} (m : Gen A) → Safe m → (s : State) → Grows s (final (m s))
Safe-Grows m h s = Ran-Grows s (m s) (h.at s)

abbrev pub KnownIn : Outcome Text → Type 0
KnownIn (done r s) = Known s r
KnownIn (stopped e s) = Unit

abbrev pub ReturnsAt : Text → Outcome Text → Type 0
ReturnsAt r (done q s) = q ≡ r
ReturnsAt r (stopped e s) = Unit

pub record Supplies (m : Gen Text) : Type 0 where
  pub at : (s : State) → KnownIn (m s)

module _ {A : Type 0} where
  pub Safe-pure : (a : A) → Safe (pure a)
  unfolding pure
  Safe-pure a = record { at = λ s. Advances-refl s }

  pub Safe-stop : (e : Failure) → Safe (stop {A = A} e)
  unfolding stop
  Safe-stop e = record { at = λ s. Moves-refl (ends_process e) s }

module _ {A B : Type 0} where
  Ran-continue :
      (f : A → Gen B) (s : State) (o : Outcome A)
      → ((a : A) → Safe (f a))
      → Ran s o
      → Ran s (continue f o)
  Ran-continue f s (done a t) h k = Ran-after s t (f a t) k ((h a).at t)
  Ran-continue f s (stopped e t) h k = k

  pub Safe-bind : (m : Gen A) (f : A → Gen B) → Safe m → ((a : A) → Safe (f a)) → Safe (m >>= f)
  unfolding ◌>>=◌
  Safe-bind m f hm hf = record { at = λ s. Ran-continue f s (m s) hf (hm.at s) }

pub Safe-when : (b : Bool) (m : Gen (Unit {0})) → Safe m → Safe (when b m)
unfolding when
Safe-when true m h = h
Safe-when false m h = Safe-pure tt

pub Safe-when_some :
    {A : Type 0} (o : Option A) (f : A → Gen (Unit {0}))
    → ((a : A) → Safe (f a))
    → Safe (when_some o f)
unfolding when_some
Safe-when_some none f h = Safe-pure tt
Safe-when_some (some a) f h = h a

pub Safe-for_each :
    {A : Type 0} (xs : List A) (f : A → Gen (Unit {0}))
    → ((a : A) → Safe (f a))
    → Safe (for_each xs f)
unfolding for_each
Safe-for_each [] f h = Safe-pure tt
Safe-for_each (x ∷ xs) f h = Safe-bind _ _ (h x) (λ u. Safe-for_each xs f h)

pub Safe-for_indexed :
    {A : Type 0} (n : ℕ) (xs : List A) (f : ℕ → A → Gen (Unit {0}))
    → ((i : ℕ) (a : A) → Safe (f i a))
    → Safe (for_indexed n xs f)
unfolding for_indexed
Safe-for_indexed n [] f h = Safe-pure tt
Safe-for_indexed n (x ∷ xs) f h = Safe-bind _ _ (h n x) (λ u. Safe-for_indexed (suc n) xs f h)

pub Safe-if : {A : Type 0} (b : Bool) (m n : Gen A) → Safe m → Safe n → Safe (if b then m else n)
Safe-if true m n hm hn = hm
Safe-if false m n hm hn = hn

-- A fact with no operand column.
pub Safe-write :
    (p : Predicate) (k : Text) (fields : List Field)
    → refers p ≡ false
    → Safe (write_fact p k fields)
unfolding write_fact
Safe-write p k fields e = record {
  at = λ s.
      Advances-fact s (record { predicate = p; key = k; fields = fields })
        (λ r o. absurd (subst (λ b. Occurs r (if b then last_text fields else [])) e o));
}

module _ (s : State) (r : Text) (k : Known s r) where
  Known-operand :
      (b : Bool) (fields : List Field)
      → last_text fields ≡ r ∷ []
      → (q : Text) → Occurs q (if b then last_text fields else [])
      → Known s q
  Known-operand true fields e q o = elim (subst (Occurs q) e o) [
    | inl same ↦ subst (Known s) (sym same) k
    | inr m ↦ absurd m
  ]
  Known-operand false fields e q o = absurd o

  Advances-operand :
      (p : Predicate) (key : Text) (fields : List Field)
      → last_text fields ≡ r ∷ []
      → Advances s (final (write_fact p key fields s))
  unfolding write_fact
  Advances-operand p key fields e =
      Advances-fact s (record { predicate = p; key = key; fields = fields })
        (Known-operand (refers p) fields e)

-- A refmode that is supplied may be written in an operand column.
module _ (p : Predicate) (key : Text) (fields : Text → List Field)
    (last : (r : Text) → last_text (fields r) ≡ r ∷ []) where
  Ran-continue_operand :
      (s : State) (o : Outcome Text)
      → KnownIn o
      → Ran s o
      → Ran s (continue (λ r. write_fact p key (fields r)) o)
  unfolding write_fact
  Ran-continue_operand s (done r t) k a =
      Advances-trans s t _ a (Advances-operand t r k p key (fields r) (last r))
  Ran-continue_operand s (stopped e t) k a = a

  pub Safe-operand :
      (m : Gen Text) → Safe m → Supplies m → Safe (m >>= λ r. write_fact p key (fields r))
  unfolding ◌>>=◌
  Safe-operand m h k = record { at = λ s. Ran-continue_operand s (m s) (k.at s) (h.at s) }

  module _ {B : Type 0} (m : Gen Text) (rest : Text → Gen B) where
    Ran-continue_then :
        (s : State) (o : Outcome Text)
        → ((r : Text) → Safe (rest r))
        → KnownIn o
        → Ran s o
        → Ran s (continue (λ r. write_fact p key (fields r) >> rest r) o)
    unfolding ◌>>=◌ write_fact
    Ran-continue_then s (done r t) h k a =
        Ran-after s t _ a
          (Ran-after t _ _ (Advances-operand t r k p key (fields r) (last r)) ((h r).at _))
    Ran-continue_then s (stopped e t) h k a = a

    pub Safe-operand_then :
        Safe m
        → Supplies m
        → ((r : Text) → Safe (rest r))
        → Safe (m >>= λ r. write_fact p key (fields r) >> rest r)
    unfolding ◌>>=◌
    Safe-operand_then hm k h = record { at = λ s. Ran-continue_then s (m s) h (k.at s) (hm.at s) }

  -- The same with a step between.
  module _ (n : Text → Gen (Unit {0})) (hn : (r : Text) → Safe (n r)) where
    Ran-between :
        (r : Text) (t : State) (o : Outcome (Unit {0}))
        → Known t r
        → Ran t o
        → Ran t (continue (λ u. write_fact p key (fields r)) o)
    unfolding write_fact
    Ran-between r t (done u w) k a =
        Advances-trans t w _ a (Advances-operand w r (a.known r k) p key (fields r) (last r))
    Ran-between r t (stopped e w) k a = a

    Ran-continue_after :
        (s : State) (o : Outcome Text)
        → KnownIn o
        → Ran s o
        → Ran s (continue (λ r. n r >> write_fact p key (fields r)) o)
    unfolding ◌>>=◌
    Ran-continue_after s (done r t) k a =
        Ran-after s t _ a (Ran-between r t (n r t) k ((hn r).at t))
    Ran-continue_after s (stopped e t) k a = a

    pub Safe-operand_after :
        (m : Gen Text) → Safe m → Supplies m → Safe (m >>= λ r. n r >> write_fact p key (fields r))
    unfolding ◌>>=◌
    Safe-operand_after m h k = record { at = λ s. Ran-continue_after s (m s) (k.at s) (h.at s) }

-- A method that returns one refmode, whatever it does before.
pub record Returns (r : Text) (m : Gen Text) : Type 0 where
  pub at : (s : State) → ReturnsAt r (m s)

pub Returns-pure : (r : Text) → Returns r (pure r)
unfolding pure
Returns-pure r = record { at = λ s. refl }

ReturnsAt-continue :
    {A : Type 0} (r : Text) (f : A → Gen Text) (o : Outcome A)
    → ((a : A) → Returns r (f a))
    → ReturnsAt r (continue f o)
ReturnsAt-continue r f (done a s) h = (h a).at s
ReturnsAt-continue r f (stopped e s) h = tt

pub Returns-bind :
    {A : Type 0} (r : Text) (m : Gen A) (f : A → Gen Text)
    → ((a : A) → Returns r (f a))
    → Returns r (m >>= f)
unfolding ◌>>=◌
Returns-bind r m f h = record { at = λ s. ReturnsAt-continue r f (m s) h }

-- What is known before a method that returns it is known behind it.
KnownIn-return :
    (r : Text) (s : State) (o : Outcome Text) → Known s r → Ran s o → ReturnsAt r o → KnownIn o
KnownIn-return r s (done q t) k a e = subst (Known t) (sym e) (a.known r k)
KnownIn-return r s (stopped x t) k a e = tt

-- `write_fact p r []` for the predicate of an entity makes `r` known.
module _ (f : Text → Gen Text) (hf : (r : Text) → Safe (f r))
    (e : (r : Text) → Returns r (f r)) where
  KnownIn-entity :
      (o : Outcome Text) → KnownIn (continue (λ r. write_fact constant.id r [] >> f r) o)
  unfolding ◌>>=◌ write_fact
  KnownIn-entity (done r s) =
      KnownIn-return r (record s { log = entity constant.id r ∷ s.log }) _ (inl (inl refl))
        ((hf r).at _) ((e r).at _)
  KnownIn-entity (stopped x s) = tt

  pub Supplies-entity : (m : Gen Text) → Supplies (m >>= λ r. write_fact constant.id r [] >> f r)
  unfolding ◌>>=◌
  Supplies-entity m = record { at = λ s. KnownIn-entity (m s) }

-- A supplied refmode that is returned behind further steps.
module _ (m : Gen Text) (g : Text → Gen Text) (hg : (r : Text) → Safe (g r))
    (e : (r : Text) → Returns r (g r)) where
  KnownIn-then : (o : Outcome Text) → KnownIn o → KnownIn (continue g o)
  KnownIn-then (done r s) k = KnownIn-return r s _ k ((hg r).at s) ((e r).at s)
  KnownIn-then (stopped x s) k = tt

  pub Supplies-then : Supplies m → Supplies (m >>= g)
  unfolding ◌>>=◌
  Supplies-then k = record { at = λ s. KnownIn-then (m s) (k.at s) }
