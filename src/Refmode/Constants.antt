-- ===== src/Refmode/Constants.antt =====
-- FactGenerator/src/RefmodeEngine.cpp, `refmode<llvm::Constant>`: the counter of constants, ended by
-- a colon, tells apart the constants of one context.
use mathlib.Mathlib.Data.List.Basic.{map-reverse_aux}
use cclyzerpp.Prelude.{
  Text, Bool, List, [], ◌∷◌, ◌++◌, ◌≡◌, refl, ap, sym, ◌∙◌, map, reverse, to_text,
  to_text-injective_before,
}
use cclyzerpp.Ir.{Constant, constant_header, plain}
use cclyzerpp.Context.{
  Anchor, is_instruction_anchor, Context, ContextManager, frame, constant_count,
}
use cclyzerpp.Refmode.{constant_refmode, with_context, with_context_from, segment, refmode_of}

with_context_from-frames :
    (isa : Anchor → Bool) (cs ds : List Context)
    → map frame cs ≡ map frame ds
    → with_context_from isa cs ≡ with_context_from isa ds
unfolding with_context_from
with_context_from-frames isa [] [] e = refl
with_context_from-frames isa [] (d ∷ ds) e = cc
with_context_from-frames isa (c ∷ cs) [] e = cc
with_context_from-frames isa (c ∷ cs) (d ∷ ds) e =
    let rest : map frame cs ≡ map frame ds = cc in
    let head : frame c ≡ frame d = cc in
    let anchor : c.anchor ≡ d.anchor = ap (λ f. f.0) head in
    let prefix : c.prefix ≡ d.prefix = ap (λ f. f.1) head in
    let ih = with_context_from-frames isa cs ds rest in
    ap (λ a. segment isa a c.prefix (with_context_from isa cs)) anchor
    ∙ ap (λ p. segment isa d.anchor p (with_context_from isa cs)) prefix
    ∙ ap (segment isa d.anchor d.prefix) ih

with_context-frames :
    (isa : Anchor → Bool) (m n : ContextManager)
    → map frame m.contexts ≡ map frame n.contexts
    → with_context isa m ≡ with_context isa n
unfolding with_context
with_context-frames isa m n e =
    with_context_from-frames isa (reverse m.contexts) (reverse n.contexts) (
      map-reverse_aux frame m.contexts []
      ∙ ap reverse e
      ∙ sym (map-reverse_aux frame n.contexts []))

append-cancel : (p s t : Text) → p ++ s ≡ p ++ t → s ≡ t
append-cancel [] s t e = e
append-cancel (c ∷ p) s t e = append-cancel p s t cc

-- In contexts with the same frames, two constants whose refmodes are equal were counted with the
-- same number.
pub constant_refmode-injective :
    (c d : Constant) (m n : ContextManager)
    → map frame m.contexts ≡ map frame n.contexts
    → (constant_refmode c m).0 ≡ (constant_refmode d n).0
    → m.constant_index ≡ n.constant_index
unfolding constant_refmode constant_count
constant_refmode-injective c d m n e h =
    let outer = with_context-frames is_instruction_anchor m n e in
    let r = (refmode_of (plain (constant_header c)) (constant_count m).1).0 in
    let s = (refmode_of (plain (constant_header d)) (constant_count n).1).0 in
    let tail = to_text n.constant_index ++ b':' ∷ s in
    to_text-injective_before m.constant_index n.constant_index r s (
      append-cancel (with_context is_instruction_anchor m) _ tail
        (h ∙ ap (λ p. p ++ tail) (sym outer)))
