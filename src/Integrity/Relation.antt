-- ===== src/Integrity/Relation.antt =====
-- How the generator's methods change the state: facts stay, declared entities stay declared, the
-- operand columns stay sound, and the stack of contexts is left as it was found.
use cclyzerpp.Prelude.{Text, Bool, true, false, ◌∷◌, ◌≡◌, refl, ◌∙◌, subst, inl, inr, Occurs}
use cclyzerpp.Gen.{Fact, State, Outcome, done, stopped, ends_process, final}
use cclyzerpp.Integrity.{references, Known, HasIntegrity, frames}

-- What holds of the facts even where the process ends inside its contexts.
pub record Grows (s t : State) : Type 0 where
  pub facts : (f : Fact) → Occurs f s.log → Occurs f t.log
  pub known : (r : Text) → Known s r → Known t r
  pub sound : HasIntegrity s → HasIntegrity t

pub record Advances (s t : State) : Type 0 where
  pub facts : (f : Fact) → Occurs f s.log → Occurs f t.log
  pub known : (r : Text) → Known s r → Known t r
  pub sound : HasIntegrity s → HasIntegrity t
  pub same_frames : frames t ≡ frames s
  pub same_function : t.manager.function_index ≡ s.manager.function_index

pub Advances-refl : (s : State) → Advances s s
Advances-refl s = record {
  facts = λ f m. m;
  known = λ r k. k;
  sound = λ h. h;
  same_frames = refl;
  same_function = refl;
}

pub Advances-trans : (s t u : State) → Advances s t → Advances t u → Advances s u
Advances-trans s t u a b = record {
  facts = λ f m. b.facts f (a.facts f m);
  known = λ r k. b.known r (a.known r k);
  sound = λ h. b.sound (a.sound h);
  same_frames = b.same_frames ∙ a.same_frames;
  same_function = b.same_function ∙ a.same_function;
}

-- A new fact whose operands are known.
pub Advances-fact :
    (s : State) (f : Fact)
    → ((r : Text) → Occurs r (references f) → Known s r)
    → Advances s (record s { log = f ∷ s.log })
Advances-fact s f k = record {
  facts = λ g m. inr m;
  known = λ r. keep r;
  sound = λ h. λ g m r o. keep r (old h g m r o);
  same_frames = refl;
  same_function = refl;
}
  where
    keep : (r : Text) → Known s r → Known (record s { log = f ∷ s.log }) r
    keep r (inl m) = inl (inr m)
    keep r (inr (inl m)) = inr (inl (inr m))
    keep r (inr (inr m)) = inr (inr m)

    old :
        HasIntegrity s
        → (g : Fact) → Occurs g (f ∷ s.log)
        → (r : Text) → Occurs r (references g)
        → Known s r
    old h g (inl e) r o = k r (subst (λ g. Occurs r (references g)) e o)
    old h g (inr m) r o = h g m r o

pub Advances-Grows : (s t : State) → Advances s t → Grows s t
Advances-Grows s t a = record { facts = a.facts; known = a.known; sound = a.sound }

Grows-trans : (s t u : State) → Grows s t → Grows t u → Grows s u
Grows-trans s t u a b = record {
  facts = λ f m. b.facts f (a.facts f m);
  known = λ r k. b.known r (a.known r k);
  sound = λ h. b.sound (a.sound h);
}

-- From `s` to `t`, where the process may have ended.
abbrev pub Moves : Bool → State → State → Type 0
Moves true s t = Grows s t
Moves false s t = Advances s t

pub Moves-Grows : (b : Bool) (s t : State) → Moves b s t → Grows s t
Moves-Grows true s t g = g
Moves-Grows false s t a = Advances-Grows s t a

pub Moves-after : (b : Bool) (s t u : State) → Advances s t → Moves b t u → Moves b s u
Moves-after true s t u a g = Grows-trans s t u (Advances-Grows s t a) g
Moves-after false s t u a b = Advances-trans s t u a b

pub Moves-refl : (b : Bool) (s : State) → Moves b s s
Moves-refl true s = Advances-Grows s s (Advances-refl s)
Moves-refl false s = Advances-refl s

module _ {A : Type 0} where
  abbrev pub Ran : State → Outcome A → Type 0
  Ran s (done a t) = Advances s t
  Ran s (stopped e t) = Moves (ends_process e) s t

  pub Ran-Grows : (s : State) (o : Outcome A) → Ran s o → Grows s (final o)
  Ran-Grows s (done a t) r = Advances-Grows s t r
  Ran-Grows s (stopped e t) r = Moves-Grows (ends_process e) s t r

  pub Ran-after : (s t : State) (o : Outcome A) → Advances s t → Ran t o → Ran s o
  Ran-after s t (done a u) h r = Advances-trans s t u h r
  Ran-after s t (stopped e u) h r = Moves-after (ends_process e) s t u h r
