-- ===== src/Refmode/Sigil.antt =====
-- FactGenerator/src/RefmodeEngine.cpp, `refmode<llvm::BasicBlock>`: the refmode of a block has the
-- sigil that `processModule` (FactGenerator.cpp) looks for with `find_last_of`.
use cclyzerpp.Prelude.{
  ℕ, Text, text, to_text, Bool, true, false, none, some, List, [], ◌∷◌, ◌≡◌, refl, sym, ◌⊎◌, trim,
  trim_left, is_space, suffix_from_last, Occurs, Occurs-append_right, Bool-cases, Option-cases, inl,
  inr, subst, ◌||◌,
}
use cclyzerpp.Ir.{Header, plain, basic_block_value}
use cclyzerpp.Context.{Context, ContextManager}
use cclyzerpp.Variables.{is_sigil}
use mathlib.Core.List.{reverse_aux}
use cclyzerpp.Refmode.Numbering.{number_of}
use cclyzerpp.Refmode.{block_refmode, refmode_of, number_in, numbered_refmode, direct_refmode}

suffix_from_last-some :
    (p : ℕ → Bool) (c : ℕ) (s : Text)
    → Occurs c s
    → p c ≡ true
    → (t : Text) × (suffix_from_last p s ≡ some t)
unfolding suffix_from_last
suffix_from_last-some p c [] m e = absurd m
suffix_from_last-some p c (d ∷ s) (inl same) e = elim (Option-cases (suffix_from_last p s)) [
  | inl h ↦ (d ∷ s, rw (h, sym same, e) refl)
  | inr (t, h) ↦ (t, rw h refl)
]
suffix_from_last-some p c (d ∷ s) (inr m) e =
    let (t, h) = suffix_from_last-some p c s m e in (t, rw h refl)

trim_left-Occurs : (c : ℕ) (s : Text) → is_space c ≡ false → Occurs c s → Occurs c (trim_left s)
unfolding trim_left
trim_left-Occurs c [] e m = m
trim_left-Occurs c (d ∷ s) e (inl same) =
    let visible : is_space d ≡ false = subst (λ x. is_space x ≡ false) same e in
    rw visible (inl same)
trim_left-Occurs c (d ∷ s) e (inr m) = elim (Bool-cases (is_space d)) [
  | inl h ↦ rw h (trim_left-Occurs c s e m)
  | inr h ↦ rw h (inr m)
]

reverse_aux-Occurs :
    (c : ℕ) (s acc : Text) → Occurs c s ⊎ Occurs c acc → Occurs c (reverse_aux s acc)
reverse_aux-Occurs c [] acc (inl m) = absurd m
reverse_aux-Occurs c [] acc (inr m) = m
reverse_aux-Occurs c (d ∷ s) acc (inl (inl same)) =
    reverse_aux-Occurs c s (d ∷ acc) (inr (inl same))
reverse_aux-Occurs c (d ∷ s) acc (inl (inr m)) = reverse_aux-Occurs c s (d ∷ acc) (inl m)
reverse_aux-Occurs c (d ∷ s) acc (inr m) = reverse_aux-Occurs c s (d ∷ acc) (inr (inr m))

trim-Occurs : (c : ℕ) (s : Text) → is_space c ≡ false → Occurs c s → Occurs c (trim s)
unfolding trim
trim-Occurs c s e m =
    reverse_aux-Occurs c _ []
      (inl (trim_left-Occurs c _ e (reverse_aux-Occurs c _ [] (inl (trim_left-Occurs c s e m)))))

-- A function is entered.
unfoldable pub in_function : List Context → Bool
in_function [] = false
in_function (c ∷ cs) = c.is_function || in_function cs

number_in-some :
    (h : Header) (cs : List Context)
    → in_function cs ≡ true
    → (t : Text) × ((number_in h cs).0 ≡ some (b'%' ∷ t))
unfolding number_in in_function
number_in-some h [] e = cc
number_in-some h (c ∷ cs) e = elim (Bool-cases c.is_function) [
  | inl f ↦ (to_text (number_of h.address c).0, rw f refl)
  | inr f ↦ let (t, k) = number_in-some h cs (rw f at e) in (t, rw f k)
]

percent_visible : is_space b'%' ≡ false
unfolding is_space
percent_visible = refl

direct_refmode-unnamed :
    (h : Header)
    → h.name ≡ none
    → h.value_class ≡ basic_block_value
    → h.type.is_void ≡ false
    → direct_refmode h ≡ none
unfolding direct_refmode
direct_refmode-unnamed h e k v = rw (e, k, v) refl

numbered_refmode-some :
    (h : Header) (m : ContextManager) (t : Text)
    → (number_in h m.contexts).0 ≡ some t
    → (numbered_refmode h m).0 ≡ t
unfolding numbered_refmode
numbered_refmode-some h m t e = rw (numbered_refmode, e) refl

-- A block's own name has the sigil.
refmode_of-Occurs :
    (h : Header) (m : ContextManager)
    → h.value_class ≡ basic_block_value
    → h.type.is_void ≡ false
    → in_function m.contexts ≡ true
    → Occurs b'%' (refmode_of (plain h) m).0
unfolding refmode_of
refmode_of-Occurs h m k v f = elim (Option-cases h.name) [
  | inl e ↦
      let (t, n) = number_in-some h m.contexts f in
      let own : (numbered_refmode h m).0 ≡ b'%' ∷ t = numbered_refmode-some h m _ n in
      rw (refmode_of, direct_refmode-unnamed h e k v)
        (trim-Occurs b'%' _ percent_visible (subst (Occurs b'%') (sym own) (inl refl)))
  | inr (n, e) ↦
      rw (refmode_of, direct_refmode, e, k) (trim-Occurs b'%' _ percent_visible (inl refl))
]

-- Inside a function, the refmode of a basic block, whose type is not void, has a suffix from its
-- last sigil, so that the `substr` of `processModule` does not throw.
pub suffix_from_last-block_refmode :
    (h : Header) (m : ContextManager)
    → h.value_class ≡ basic_block_value
    → h.type.is_void ≡ false
    → in_function m.contexts ≡ true
    → (t : Text) × (suffix_from_last is_sigil (block_refmode (plain h) m).0 ≡ some t)
unfolding block_refmode
suffix_from_last-block_refmode h m k v f =
    suffix_from_last-some is_sigil b'%' _
      (Occurs-append_right b'%' _ _
        (Occurs-append_right b'%' (text "[basicblock]") _ (refmode_of-Occurs h m k v f)))
      refl
