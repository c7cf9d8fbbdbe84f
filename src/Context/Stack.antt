-- ===== src/Context/Stack.antt =====
-- What `pushContext` and `popContext` do to the frames of the stack and to the index of the
-- innermost function.
use cclyzerpp.Prelude.{Bool, false, none, List, [], ◌∷◌, ◌≡◌, refl, ap, map, if◌then◌else◌}
use cclyzerpp.Context.{Context, ContextManager, pop_context, pop_list, frame, Frame}

abbrev pub tail_frames : List Frame → List Frame
tail_frames [] = []
tail_frames (f ∷ fs) = fs

abbrev pub head_is_function : List Frame → Bool
head_is_function [] = false
head_is_function (f ∷ fs) = f.2

frames-pop_list :
    (cs : List Context) (m : ContextManager)
    → m.contexts ≡ cs
    → map frame (pop_list cs m).contexts ≡ tail_frames (map frame cs)
unfolding pop_list
frames-pop_list [] m e = ap (map frame) e
frames-pop_list (c ∷ cs) m e = refl

pub frames-pop :
    (m : ContextManager) → map frame (pop_context m).contexts ≡ tail_frames (map frame m.contexts)
unfolding pop_context
frames-pop m = frames-pop_list m.contexts m refl

index-pop_list :
    (cs : List Context) (m : ContextManager)
    → (pop_list cs m).function_index
      ≡ (if head_is_function (map frame cs) then none else m.function_index)
unfolding pop_list
index-pop_list [] m = refl
index-pop_list (c ∷ cs) m = refl

pub index-pop :
    (m : ContextManager)
    → (pop_context m).function_index
      ≡ (if head_is_function (map frame m.contexts) then none else m.function_index)
unfolding pop_context
index-pop m = index-pop_list m.contexts m
