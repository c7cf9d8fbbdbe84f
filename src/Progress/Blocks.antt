-- ===== src/Progress/Blocks.antt =====
-- FactGenerator/src/FactGenerator.cpp and Variables.cpp: inside a function, writing its blocks and its
-- variables returns.
use cclyzerpp.Prelude.{
  Text, text, Bool, true, false, Option, none, some, List, [], ◌∷◌, ◌≡◌, refl, sym, subst, All,
  suffix_from_last,
}
use cclyzerpp.Predicates.{variable}
use cclyzerpp.Ir.{
  LlvmType, Value, plain, metadata_text, metadata_local, basic_block_value, Instruction, Block,
  Function,
}
use cclyzerpp.Context.{get_name, block_anchor, instruction_anchor}
use cclyzerpp.Externals.{Externals}
use cclyzerpp.Refmode.{block_refmode}
use cclyzerpp.Refmode.Sigil.{suffix_from_last-block_refmode}
use cclyzerpp.Variables.{is_sigil, write_local_variables}
use cclyzerpp.Instruction.{visit}
use cclyzerpp.Generate.{
  process_instruction, process_instructions, name_or_throw, write_label, process_block,
  process_blocks, process_body,
}
use cclyzerpp.Gen.{
  Gen, State, Outcome, done, stopped, returns, continue, str, write_fact, pure, ◌>>=◌, ◌>>◌,
  refmode, in_context,
}
use cclyzerpp.Integrity.{frames}
use cclyzerpp.Integrity.Relation.{Advances, Ran}
use cclyzerpp.Integrity.Rules.{Safe}
use cclyzerpp.Integrity.Contexts.{Safe-in_block}
use cclyzerpp.Integrity.Module.{process_block-Safe, process_blocks-Safe}
use cclyzerpp.Integrity.Variables.{Written, write_local_variables-Written}
use cclyzerpp.Progress.Rules.{
  Answers, Answers-pure, Answers-bind, Answers-write, Answers-for_each, Answers-in_context,
  returns-leave_outcome,
}
use cclyzerpp.Progress.Instructions.{IsNamed, visit-Answers}
use cclyzerpp.Progress.Inside.{
  IsInside, Inside, Inside-current_function, Inside-in_function, Inside-push_block,
}
use cclyzerpp.Progress.Entities.{module_answers, write_predecessor-Answers, write_target-Answers}

-- A method that returns inside a function.
pub record AnswersInside {A : Type 0} (m : Gen A) : Type 0 where
  pub at : (s : State) → Inside s → returns (m s) ≡ true

pub Answers-AnswersInside : {A : Type 0} (m : Gen A) → Answers m → AnswersInside m
Answers-AnswersInside m h = record { at = λ s i. h.at s }

Inside-Advances : (s t : State) → Advances s t → Inside s → Inside t
Inside-Advances s t a h =
    subst (λ fs. IsInside fs t.manager.function_index) (sym a.same_frames)
      (subst (IsInside (frames s)) (sym a.same_function) h)

module _ {A B : Type 0} where
  returns-continue_entered :
      (f : A → Gen B) (s : State) (o : Outcome A)
      → Inside s
      → Ran s o
      → ((a : A) → AnswersInside (f a))
      → returns o ≡ true
      → returns (continue f o) ≡ true
  unfolding returns
  returns-continue_entered f s (done a t) i v h k = (h a).at t (Inside-Advances s t v i)
  returns-continue_entered f s (stopped e t) i v h k = cc

  pub AnswersInside-bind :
      (m : Gen A) (f : A → Gen B)
      → AnswersInside m
      → Safe m
      → ((a : A) → AnswersInside (f a))
      → AnswersInside (m >>= f)
  unfolding ◌>>=◌
  AnswersInside-bind m f h v k = record {
    at = λ s i. returns-continue_entered f s (m s) i (v.at s) k (h.at s i);
  }

  returns-continue_then :
      (f : A → Gen B) (o : Outcome A)
      → ((a : A) → Answers (f a))
      → returns o ≡ true
      → returns (continue f o) ≡ true
  unfolding returns
  returns-continue_then f (done a t) h k = (h a).at t
  returns-continue_then f (stopped e t) h k = cc

  AnswersInside-then :
      (m : Gen A) (f : A → Gen B)
      → AnswersInside m
      → ((a : A) → Answers (f a))
      → AnswersInside (m >>= f)
  unfolding ◌>>=◌
  AnswersInside-then m f h k = record { at = λ s i. returns-continue_then f (m s) k (h.at s i) }

AnswersInside-in_block :
    {A : Type 0} (v : Value) (m : Gen A)
    → AnswersInside m
    → AnswersInside (in_context (block_anchor v) m)
unfolding in_context
AnswersInside-in_block v m h = record {
  at = λ s i. returns-leave_outcome _ (h.at _ (Inside-push_block s v i));
}

-- The value of a block, which has no void type.
abbrev pub IsLabel : Value → Type 0
IsLabel (plain h) = (h.value_class ≡ basic_block_value) × (h.type.is_void ≡ false)
IsLabel (metadata_text h t) = ⊥
IsLabel (metadata_local h t v) = ⊥

name_or_throw-Answers : (n : Option Text) (t : Text) → n ≡ some t → Answers (name_or_throw n)
unfolding name_or_throw
name_or_throw-Answers none t e = cc
name_or_throw-Answers (some n) t e = Answers-pure n

-- `write_label` behind the refmode of the block.
label_rest-Answers :
    (f : Function) (bb_ref t : Text)
    → suffix_from_last is_sigil bb_ref ≡ some t
    → Answers (do
      write_fact variable.id bb_ref []
      write_fact variable.type bb_ref (str (text "label") ∷ [])
      write_fact variable.in_func bb_ref (str (b'@' ∷ get_name f.value) ∷ [])
      n ← name_or_throw (suffix_from_last is_sigil bb_ref)
      write_fact variable.name bb_ref (str n ∷ [])
      pure bb_ref)
label_rest-Answers f bb_ref t e = Answers-bind _ _ (Answers-write _ _ _) (λ _.
    Answers-bind _ _ (Answers-write _ _ _) (λ _. Answers-bind _ _ (Answers-write _ _ _) (λ _.
      Answers-bind _ _ (name_or_throw-Answers _ t e)
        (λ n. Answers-bind _ _ (Answers-write _ _ _) (λ _. Answers-pure bb_ref)))))

write_label-AnswersInside : (f : Function) (v : Value) → IsLabel v → AnswersInside (write_label f v)
unfolding write_label ◌>>=◌ refmode
write_label-AnswersInside f (plain h) (k, n) = record {
  at = λ s i.
      let (t, e) = suffix_from_last-block_refmode h s.manager k n (Inside-in_function s i) in
      (label_rest-Answers f (block_refmode (plain h) s.manager).0 t e).at _;
}
write_label-AnswersInside f (metadata_text h t) l = absurd l
write_label-AnswersInside f (metadata_local h t v) l = absurd l

-- What LLVM's verifier grants of a block, a function and a module.
abbrev pub IsNamedBlock : Block → Type 0
IsNamedBlock b = IsLabel b.value × All (λ i. IsNamed i.opcode) b.instructions

abbrev pub IsNamedFunction : Function → Type 0
IsNamedFunction f = All IsNamedBlock f.blocks

-- What stays behind the label of a block returns in every state.
module _ (x : Externals) (funcref : Text) where
  process_instruction-Answers :
      (b : Block) (i : Instruction) (prev : Option Text)
      → Answers (visit x i.opcode)
      → Answers (process_instruction x funcref b i prev)
  unfolding process_instruction
  process_instruction-Answers b i prev h = search (module_answers, write_target-Answers) depth 24

  process_instructions-Answers :
      (b : Block) (is : List Instruction) (prev : Option Text)
      → All (λ i. IsNamed i.opcode) is
      → Answers (process_instructions x funcref b is prev)
  unfolding process_instructions
  process_instructions-Answers b [] prev h = Answers-pure prev
  process_instructions-Answers b (i ∷ is) prev h =
      Answers-bind _ _
        (Answers-in_context (instruction_anchor i.value) _
          (process_instruction-Answers b i prev (visit-Answers x i.opcode h.0)))
        (λ iref. process_instructions-Answers b is (some iref) h.1)

  process_block-AnswersInside :
      (f : Function) (b : Block) (prev : Option Text)
      → IsNamedBlock b
      → AnswersInside (process_block x funcref f b prev)
  unfolding process_block
  process_block-AnswersInside f b prev h =
      AnswersInside-then _ _ (write_label-AnswersInside f b.value h.0) (λ bb_ref.
        Answers-bind _ _ (Answers-for_each b.predecessors _ (write_predecessor-Answers bb_ref))
          (λ _. process_instructions-Answers b b.instructions prev h.1))

  process_blocks-AnswersInside :
      (f : Function) (bs : List Block) (prev : Option Text)
      → All IsNamedBlock bs
      → AnswersInside (process_blocks x funcref f bs prev)
  unfolding process_blocks
  process_blocks-AnswersInside f [] prev h = Answers-AnswersInside _ (Answers-pure tt)
  process_blocks-AnswersInside f (b ∷ bs) prev h =
      AnswersInside-bind _ _
        (AnswersInside-in_block b.value _ (process_block-AnswersInside f b prev h.0))
        (Safe-in_block _ (process_block-Safe x funcref f b prev) b.value)
        (λ prev'. process_blocks-AnswersInside f bs prev' h.1)

Written-returns :
    (vars : List (Text × LlvmType)) (o : Outcome (Unit {0})) → Written vars o → returns o ≡ true
unfolding returns
Written-returns vars (done u s) w = refl
Written-returns vars (stopped e s) w = absurd w

write_local_variables-AnswersInside : AnswersInside write_local_variables
write_local_variables-AnswersInside = record {
  at = λ s i.
      let (f, e) = Inside-current_function s i in
      Written-returns s.variable_types _ (write_local_variables-Written s f e);
}

pub process_body-AnswersInside :
    (x : Externals) (f : Function) (k : Text) (b : Bool)
    → IsNamedFunction f
    → AnswersInside (process_body x f k b)
unfolding process_body
process_body-AnswersInside x f k true h = Answers-AnswersInside _ (Answers-pure tt)
process_body-AnswersInside x f k false h =
    AnswersInside-bind _ _ (process_blocks-AnswersInside x k f f.blocks none h)
      (process_blocks-Safe x k f f.blocks none) (λ _. write_local_variables-AnswersInside)
