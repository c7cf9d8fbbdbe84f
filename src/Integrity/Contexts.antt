-- ===== src/Integrity/Contexts.antt =====
-- Entering a context, running a body and leaving it again.
use cclyzerpp.Prelude.{
  Bool, true, false, Text, none, some, List, [], ◌∷◌, ◌≡◌, refl, ap, ap₂, sym, ◌∙◌, map,
  if◌then◌else◌,
}
use cclyzerpp.Context.{
  Anchor, function_anchor, block_anchor, instruction_anchor, is_function_anchor, Context,
  push_context, pop_context, frame, Frame,
}
use cclyzerpp.Context.Stack.{tail_frames, head_is_function, frames-pop, index-pop}
use cclyzerpp.Ir.{Value, Function}
use cclyzerpp.Gen.{leave_outcome, ends_process, State, Gen, Outcome, done, stopped, in_context}
use cclyzerpp.Integrity.{frames}
use cclyzerpp.Integrity.Relation.{Advances, Moves, Ran}
use cclyzerpp.Integrity.Rules.{Safe}

-- The frame of a new context.
abbrev frame_of : Anchor → State → Frame
frame_of a s = (some a, top_prefix (push_context a s.manager).contexts, is_function_anchor a)
  where
    top_prefix : List Context → Text
    top_prefix [] = []
    top_prefix (c ∷ cs) = c.prefix

-- Leaving the context that was entered at `s`, after a body that advanced the state.
leave-Advances :
    (a : Anchor) (s t : State)
    → map frame (push_context a s.manager).contexts ≡ frame_of a s ∷ frames s
    → (if (frame_of a s).2 then none else (push_context a s.manager).function_index)
      ≡ s.manager.function_index
    → Advances (record s { manager = push_context a s.manager }) t
    → Advances s (record t { manager = pop_context t.manager })
leave-Advances a s t pushed index b = record {
  facts = b.facts;
  known = b.known;
  sound = b.sound;
  same_frames = frames-pop t.manager ∙ ap tail_frames (b.same_frames ∙ pushed);
  same_function =
      index-pop t.manager
      ∙ ap₂ (λ f i. if head_is_function f then none else i) (b.same_frames ∙ pushed) b.same_function
      ∙ index;
}

-- A stop inside a context: the end of the process keeps it entered, an exception leaves it.
leave-Moves :
    (exit : Bool) (a : Anchor) (s t : State)
    → map frame (push_context a s.manager).contexts ≡ frame_of a s ∷ frames s
    → (if (frame_of a s).2 then none else (push_context a s.manager).function_index)
      ≡ s.manager.function_index
    → Moves exit (record s { manager = push_context a s.manager }) t
    → Moves exit s (if exit then t else record t { manager = pop_context t.manager })
leave-Moves true a s t pushed index g = record { facts = g.facts; known = g.known; sound = g.sound }
leave-Moves false a s t pushed index b = leave-Advances a s t pushed index b

leave-Ran :
    {A : Type 0} (a : Anchor) (s : State) (o : Outcome A)
    → map frame (push_context a s.manager).contexts ≡ frame_of a s ∷ frames s
    → (if (frame_of a s).2 then none else (push_context a s.manager).function_index)
      ≡ s.manager.function_index
    → Ran (record s { manager = push_context a s.manager }) o
    → Ran s (leave_outcome o)
unfolding leave_outcome
leave-Ran a s (done b t) pushed index r = leave-Advances a s t pushed index r
leave-Ran a s (stopped e t) pushed index r = leave-Moves (ends_process e) a s t pushed index r

module _ {A : Type 0} (m : Gen A) (h : Safe m) where
  in_context-Ran :
      (a : Anchor) (s : State)
      → map frame (push_context a s.manager).contexts ≡ frame_of a s ∷ frames s
      → (if (frame_of a s).2 then none else (push_context a s.manager).function_index)
        ≡ s.manager.function_index
      → Ran s (in_context a m s)
  unfolding in_context
  in_context-Ran a s pushed index =
      leave-Ran a s (m (record s { manager = push_context a s.manager })) pushed index
        (h.at (record s { manager = push_context a s.manager }))

  pub Safe-in_block : (v : Value) → Safe (in_context (block_anchor v) m)
  unfolding push_context
  Safe-in_block v = record { at = λ s. in_context-Ran (block_anchor v) s refl refl }

  pub Safe-in_instruction : (v : Value) → Safe (in_context (instruction_anchor v) m)
  unfolding push_context
  Safe-in_instruction v = record { at = λ s. in_context-Ran (instruction_anchor v) s refl refl }

  -- A function's context forgets the index of the function around it, so there must be none.
  pub in_function-Ran :
      (f : Function) (s : State)
      → s.manager.function_index ≡ none
      → Ran s (in_context (function_anchor f) m s)
  unfolding push_context
  in_function-Ran f s outside = in_context-Ran (function_anchor f) s refl (sym outside)
