-- ===== src/Sensitivity/RoundTrip.antt =====
-- The reader accepts what the printer writes, and nothing else.
use cclyzerpp.Prelude.{
  Text, text, text_eq, is_space, Bool, true, some, [], ◌∷◌, ◌++◌, ◌≡◌, refl, Bool-cases, inl, inr,
  not, ◌&&◌,
}
use cclyzerpp.Sensitivity.{
  ContextSensitivity, insensitive, callsite1, callsite2, callsite3, callsite4, callsite5, callsite6,
  callsite7, callsite8, callsite9, caller1, caller2, caller3, caller4, caller5, caller6, caller7,
  caller8, caller9, context_sensitivity_to_string, token_sensitivity, skip_space, span_token,
  read_sensitivity,
}

-- The end of the stream, or white space.
abbrev pub EndsToken : Text → Type 0
EndsToken [] = Unit
EndsToken (c ∷ s) = is_space c ≡ true

-- No character of the text is white space.
visible : Text → Bool
visible [] = true
visible (c ∷ s) = not (is_space c) && visible s

span_token-append :
    (t rest : Text) → visible t ≡ true → EndsToken rest → span_token (t ++ rest) ≡ (t, rest)
unfolding span_token visible
span_token-append [] [] v e = refl
span_token-append [] (c ∷ s) v e = rw e
span_token-append (c ∷ t) rest v e = elim (Bool-cases (is_space c)) [
  | inl space ↦ cc (rw space at v)
  | inr other ↦ rw (other, span_token-append t rest (rw other at v) e)
]

to_string-visible : (s : ContextSensitivity) → visible (context_sensitivity_to_string s) ≡ true
unfolding visible context_sensitivity_to_string text is_space
to_string-visible insensitive = refl
to_string-visible callsite1 = refl
to_string-visible callsite2 = refl
to_string-visible callsite3 = refl
to_string-visible callsite4 = refl
to_string-visible callsite5 = refl
to_string-visible callsite6 = refl
to_string-visible callsite7 = refl
to_string-visible callsite8 = refl
to_string-visible callsite9 = refl
to_string-visible caller1 = refl
to_string-visible caller2 = refl
to_string-visible caller3 = refl
to_string-visible caller4 = refl
to_string-visible caller5 = refl
to_string-visible caller6 = refl
to_string-visible caller7 = refl
to_string-visible caller8 = refl
to_string-visible caller9 = refl

token-to_string :
    (s : ContextSensitivity) → token_sensitivity (context_sensitivity_to_string s) ≡ some s
unfolding token_sensitivity context_sensitivity_to_string text text_eq
token-to_string insensitive = refl
token-to_string callsite1 = refl
token-to_string callsite2 = refl
token-to_string callsite3 = refl
token-to_string callsite4 = refl
token-to_string callsite5 = refl
token-to_string callsite6 = refl
token-to_string callsite7 = refl
token-to_string callsite8 = refl
token-to_string callsite9 = refl
token-to_string caller1 = refl
token-to_string caller2 = refl
token-to_string caller3 = refl
token-to_string caller4 = refl
token-to_string caller5 = refl
token-to_string caller6 = refl
token-to_string caller7 = refl
token-to_string caller8 = refl
token-to_string caller9 = refl

skip_space-to_string :
    (s : ContextSensitivity) (rest : Text)
    → skip_space (context_sensitivity_to_string s ++ rest) ≡ context_sensitivity_to_string s ++ rest
unfolding skip_space context_sensitivity_to_string text is_space
skip_space-to_string insensitive rest = refl
skip_space-to_string callsite1 rest = refl
skip_space-to_string callsite2 rest = refl
skip_space-to_string callsite3 rest = refl
skip_space-to_string callsite4 rest = refl
skip_space-to_string callsite5 rest = refl
skip_space-to_string callsite6 rest = refl
skip_space-to_string callsite7 rest = refl
skip_space-to_string callsite8 rest = refl
skip_space-to_string callsite9 rest = refl
skip_space-to_string caller1 rest = refl
skip_space-to_string caller2 rest = refl
skip_space-to_string caller3 rest = refl
skip_space-to_string caller4 rest = refl
skip_space-to_string caller5 rest = refl
skip_space-to_string caller6 rest = refl
skip_space-to_string caller7 rest = refl
skip_space-to_string caller8 rest = refl
skip_space-to_string caller9 rest = refl

-- Reading back what is printed of a sensitivity, with white space or the end of the stream behind
-- it, gives that sensitivity and leaves the stream behind the text.
pub read-to_string :
    (s : ContextSensitivity) (rest : Text)
    → EndsToken rest
    → read_sensitivity (context_sensitivity_to_string s ++ rest) ≡ (some s, rest)
unfolding read_sensitivity
read-to_string s rest e = rw (
  skip_space-to_string s rest,
  span_token-append (context_sensitivity_to_string s) rest (to_string-visible s) e,
  token-to_string s,
)
