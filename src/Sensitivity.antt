-- ===== src/Sensitivity.antt =====
-- FactGenerator/include/ContextSensitivity.hpp and FactGenerator/src/ContextSensitivity.cpp: the
-- context sensitivities, their texts, and the reader from a stream.
pub mod RoundTrip
use cclyzerpp.Prelude.{
  ℕ, Text, text, text_eq, is_space, Bool, true, false, Option, none, some, List, [], ◌∷◌,
  if◌then◌else◌,
}

pub data ContextSensitivity : Type 0 where
  insensitive callsite1 callsite2 callsite3 callsite4 callsite5 callsite6 callsite7 callsite8
        callsite9 :
      ContextSensitivity
  caller1 caller2 caller3 caller4 caller5 caller6 caller7 caller8 caller9 : ContextSensitivity

unfoldable pub context_sensitivity_to_string : ContextSensitivity → Text
context_sensitivity_to_string insensitive = text "insensitive"
context_sensitivity_to_string callsite1 = text "1-callsite"
context_sensitivity_to_string callsite2 = text "2-callsite"
context_sensitivity_to_string callsite3 = text "3-callsite"
context_sensitivity_to_string callsite4 = text "4-callsite"
context_sensitivity_to_string callsite5 = text "5-callsite"
context_sensitivity_to_string callsite6 = text "6-callsite"
context_sensitivity_to_string callsite7 = text "7-callsite"
context_sensitivity_to_string callsite8 = text "8-callsite"
context_sensitivity_to_string callsite9 = text "9-callsite"
context_sensitivity_to_string caller1 = text "1-caller"
context_sensitivity_to_string caller2 = text "2-caller"
context_sensitivity_to_string caller3 = text "3-caller"
context_sensitivity_to_string caller4 = text "4-caller"
context_sensitivity_to_string caller5 = text "5-caller"
context_sensitivity_to_string caller6 = text "6-caller"
context_sensitivity_to_string caller7 = text "7-caller"
context_sensitivity_to_string caller8 = text "8-caller"
context_sensitivity_to_string caller9 = text "9-caller"

-- The chain of comparisons of a token with each text; `none` sets the stream's fail bit.
unfoldable pub token_sensitivity : Text → Option ContextSensitivity
token_sensitivity token =
    if text_eq token (text "insensitive")
    then some insensitive
    else if text_eq token (text "1-callsite")
    then some callsite1
    else if text_eq token (text "2-callsite")
    then some callsite2
    else if text_eq token (text "3-callsite")
    then some callsite3
    else if text_eq token (text "4-callsite")
    then some callsite4
    else if text_eq token (text "5-callsite")
    then some callsite5
    else if text_eq token (text "6-callsite")
    then some callsite6
    else if text_eq token (text "7-callsite")
    then some callsite7
    else if text_eq token (text "8-callsite")
    then some callsite8
    else if text_eq token (text "9-callsite")
    then some callsite9
    else if text_eq token (text "1-caller")
    then some caller1
    else if text_eq token (text "2-caller")
    then some caller2
    else if text_eq token (text "3-caller")
    then some caller3
    else if text_eq token (text "4-caller")
    then some caller4
    else if text_eq token (text "5-caller")
    then some caller5
    else if text_eq token (text "6-caller")
    then some caller6
    else if text_eq token (text "7-caller")
    then some caller7
    else if text_eq token (text "8-caller")
    then some caller8
    else if text_eq token (text "9-caller")
    then some caller9
    else none

-- `in >> token`: white space is skipped, and the token ends at white space or the end.
unfoldable pub skip_space : Text → Text
skip_space [] = []
skip_space (c ∷ s) = if is_space c then skip_space s else c ∷ s

unfoldable pub span_token : Text → Text × Text
span_token [] = ([], [])
span_token (c ∷ s) =
    let (t, rest) = span_token s in if is_space c then ([], c ∷ s) else (c ∷ t, rest)

-- `operator>>`: the value, if the token is known, and what is left of the stream.
unfoldable pub read_sensitivity : Text → Option ContextSensitivity × Text
read_sensitivity s =
    let (token, rest) = span_token (skip_space s) in (token_sensitivity token, rest)
