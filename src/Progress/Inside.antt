-- ===== src/Progress/Inside.antt =====
-- FactGenerator/src/ContextManager.hpp: when `functionContext()` finds a function. The condition is
-- on the frames of the stack, which the generator's methods leave as they are.
use mathlib.Core.List.{reverse-cons}
use cclyzerpp.Prelude.{
  ℕ, zero, suc, Text, true, Option, none, some, List, [], ◌∷◌, ◌++◌, ◌≡◌, refl, sym, ap, ◌∙◌, subst,
  map, reverse, length, length-append, get_elem?, Occurs, inl, inr, ◌⊎◌, arith, Bool-cases,
}
use cclyzerpp.Ir.{Value, Function}
use cclyzerpp.Context.{
  function_anchor, block_anchor, instruction_anchor, Context, ContextManager, Frame, frame,
  get_name, new_context, push_context, function_context, function_at,
}
use cclyzerpp.Refmode.Sigil.{in_function}
use cclyzerpp.Gen.{State, current_function, context_function, done}
use cclyzerpp.Integrity.{frames}

module _ {A : Type 0} where
  get_elem?-append :
      (xs ys : List A) (i : ℕ) (y : A) → get_elem? xs i ≡ some y → get_elem? (xs ++ ys) i ≡ some y
  get_elem?-append [] ys i y e = cc
  get_elem?-append (x ∷ xs) ys zero y e = e
  get_elem?-append (x ∷ xs) ys (suc i) y e = get_elem?-append xs ys i y e

  get_elem?-last : (xs : List A) (y : A) → get_elem? (xs ++ y ∷ []) (length xs) ≡ some y
  get_elem?-last [] y = refl
  get_elem?-last (x ∷ xs) y = get_elem?-last xs y

  length-reverse : (xs : List A) → length (reverse xs) ≡ length xs
  length-reverse [] = refl
  length-reverse (x ∷ xs) =
      ap length (reverse-cons x xs)
      ∙ length-append (reverse xs) (x ∷ [])
      ∙ omega (arith, length-reverse xs)

  get_elem?-Occurs : (xs : List A) (i : ℕ) (y : A) → get_elem? xs i ≡ some y → Occurs y xs
  get_elem?-Occurs [] i y e = cc
  get_elem?-Occurs (x ∷ xs) zero y e = inl (some-injective y x (sym e))
    where
      some-injective : (a b : A) → some a ≡ some b → a ≡ b
      some-injective a b e = ap (λ o. elim o [ none ↦ a | some c ↦ c ]) e
  get_elem?-Occurs (x ∷ xs) (suc i) y e = inr (get_elem?-Occurs xs i y e)

  Occurs-either : (y : A) (xs ys : List A) → Occurs y (xs ++ ys) → Occurs y xs ⊎ Occurs y ys
  Occurs-either y [] ys m = inr m
  Occurs-either y (x ∷ xs) ys (inl e) = inl (inl e)
  Occurs-either y (x ∷ xs) ys (inr m) = elim (Occurs-either y xs ys m) [
    | inl k ↦ inl (inr k)
    | inr k ↦ inr k
  ]

  reverse-Occurs : (y : A) (xs : List A) → Occurs y (reverse xs) → Occurs y xs
  reverse-Occurs y [] m = m
  reverse-Occurs y (x ∷ xs) m =
      elim (Occurs-either y (reverse xs) (x ∷ []) (subst (Occurs y) (reverse-cons x xs) m)) [
        | inl k ↦ inr (reverse-Occurs y xs k)
        | inr (inl e) ↦ inl e
        | inr (inr k) ↦ absurd k
      ]

module _ {A B : Type 0} (f : A → B) where
  map-append_list : (xs ys : List A) → map f (xs ++ ys) ≡ map f xs ++ map f ys
  map-append_list [] ys = refl
  map-append_list (x ∷ xs) ys = ap (λ l. f x ∷ l) (map-append_list xs ys)

  reverse-map : (xs : List A) → reverse (map f xs) ≡ map f (reverse xs)
  reverse-map [] = refl
  reverse-map (x ∷ xs) =
      reverse-cons (f x) (map f xs)
      ∙ ap (λ l. l ++ f x ∷ []) (reverse-map xs)
      ∙ sym (map-append_list (reverse xs) (x ∷ []))
      ∙ ap (map f) (sym (reverse-cons x xs))

  length-map : (xs : List A) → length (map f xs) ≡ length xs
  length-map [] = refl
  length-map (x ∷ xs) = ap suc (length-map xs)

  get_elem?-map :
      (xs : List A) (i : ℕ) (y : B)
      → get_elem? (map f xs) i ≡ some y
      → (x : A) × (get_elem? xs i ≡ some x) × (f x ≡ y)
  get_elem?-map [] i y e = cc
  get_elem?-map (x ∷ xs) zero y e = (x, refl, ap (λ o. elim o [ none ↦ f x | some c ↦ c ]) e)
  get_elem?-map (x ∷ xs) (suc i) y e = get_elem?-map xs i y e

-- The frame of an entered function.
abbrev function_frame : Function → Text → Frame
function_frame f t = (some (function_anchor f), t, true)

-- The index is that of the frame of a function, counted from the outermost.
pub record IsInside (fs : List Frame) (index : Option ℕ) : Type 0 where
  pub position : ℕ
  pub function : Function
  pub prefix : Text
  pub index_is : index ≡ some position
  pub frame_is : get_elem? (reverse fs) position ≡ some (function_frame function prefix)

-- The state is inside a function.
abbrev pub Inside : State → Type 0
Inside s = IsInside (frames s) s.manager.function_index

context_function-some :
    (c : Context) (f : Function)
    → c.is_function ≡ true
    → c.anchor ≡ some (function_anchor f)
    → context_function (function_at (some c)) ≡ some f
unfolding context_function
context_function-some c f e anchor = rw (e, context_function, anchor) refl

function_context-at :
    (m : ContextManager) (i : ℕ) (c : Context)
    → m.function_index ≡ some i
    → get_elem? (reverse m.contexts) i ≡ some c
    → function_context m ≡ function_at (some c)
unfolding function_context
function_context-at m i c e found = rw e (ap function_at found)

pub Inside-current_function :
    (s : State) → Inside s → (f : Function) × (current_function s ≡ done (some f) s)
unfolding current_function
Inside-current_function s h =
    let at_reverse =
      ap (λ l. get_elem? l h.position) (sym (reverse-map frame s.manager.contexts)) in
    let (c, e, k) =
      get_elem?-map frame (reverse s.manager.contexts) h.position _ (at_reverse ∙ h.frame_is) in
    let is : c.is_function ≡ true = ap (λ fr. fr.2) k in
    let anchor : c.anchor ≡ some (function_anchor h.function) = ap (λ fr. fr.0) k in
    (
      h.function,
      ap (λ o. done o s)
          (ap context_function (function_context-at s.manager h.position c h.index_is e)
            ∙ context_function-some c h.function is anchor),
    )

Occurs-in_function :
    (f : Function) (t : Text) (cs : List Context)
    → Occurs (function_frame f t) (map frame cs)
    → in_function cs ≡ true
unfolding in_function
Occurs-in_function f t [] m = absurd m
Occurs-in_function f t (c ∷ cs) (inl e) = rw (sym (ap (λ fr. fr.2) e)) refl
Occurs-in_function f t (c ∷ cs) (inr m) = elim (Bool-cases c.is_function) [
  | inl e ↦ rw e refl
  | inr e ↦ rw e (Occurs-in_function f t cs m)
]

pub Inside-in_function : (s : State) → Inside s → in_function s.manager.contexts ≡ true
Inside-in_function s h =
    Occurs-in_function h.function h.prefix s.manager.contexts
      (reverse-Occurs _ (frames s) (get_elem?-Occurs _ h.position _ h.frame_is))

-- A further frame on the stack.
Inside-further :
    (fs : List Frame) (fr : Frame) (index : Option ℕ) → IsInside fs index → IsInside (fr ∷ fs) index
Inside-further fs fr index h = record {
  position = h.position;
  function = h.function;
  prefix = h.prefix;
  index_is = h.index_is;
  frame_is =
      ap (λ l. get_elem? l h.position) (reverse-cons fr fs)
      ∙ get_elem?-append (reverse fs) (fr ∷ []) h.position _ h.frame_is;
}

module _ (s : State) where
  pub Inside-push_block :
      (v : Value)
      → Inside s
      → Inside (record s { manager = push_context (block_anchor v) s.manager })
  unfolding push_context
  Inside-push_block v h = Inside-further (frames s) _ _ h

  pub Inside-push_instruction :
      (v : Value)
      → Inside s
      → Inside (record s { manager = push_context (instruction_anchor v) s.manager })
  unfolding push_context
  Inside-push_instruction v h = Inside-further (frames s) _ _ h

  -- Entering a function puts the state inside it.
  pub Inside-push_function :
      (f : Function) → Inside (record s { manager = push_context (function_anchor f) s.manager })
  unfolding push_context new_context
  Inside-push_function f = record {
    position = length s.manager.contexts;
    function = f;
    prefix = get_name f.value;
    index_is = refl;
    frame_is =
        ap (λ l. get_elem? l (length s.manager.contexts)) (reverse-cons _ (frames s))
        ∙ ap (get_elem? (reverse (frames s) ++ function_frame f (get_name f.value) ∷ []))
            (sym (length-reverse (frames s) ∙ length-map frame s.manager.contexts))
        ∙ get_elem?-last (reverse (frames s)) (function_frame f (get_name f.value));
  }
