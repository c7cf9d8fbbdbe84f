-- ===== src/Signatures.antt =====
-- FactGenerator/src/Signatures.cpp: points-to signatures from a JSON file. A JSON value is what the
-- accessors of `llvm::json` return at the depth where the code asks for them.
pub mod Typing
use cclyzerpp.Prelude.{
  ℕ, Text, text, text_eq, to_text, Bool, true, false, ◌||◌, Option, none, some, List, [], ◌∷◌, ◌++◌,
  ◌==◌, length, if◌then◌else◌,
}
use cclyzerpp.Predicates.{Predicate, signature}
use cclyzerpp.Externals.{Externals}
use cclyzerpp.Gen.{
  Gen, pure, stop, invalid_argument, regex_error, ◌>>=◌, ◌>>◌, for_each, Field, str, int, ℤ,
  write_fact,
}

-- An argument of a signature: `getAsInteger`, `getAsString`, or neither.
pub data Scalar : Type 0 where
  integer_value : ℤ → Scalar
  string_value : Text → Scalar
  other_value : Scalar

-- What stands behind the type of a signature: `getAsArray`.
pub data Arguments : Type 0 where
  array_value : List Scalar → Arguments
  not_array : Arguments

-- A component of a function's signature: `getAsObject`, with its entries.
pub data Component : Type 0 where
  object_value : List (Text × Arguments) → Component
  not_object : Component

-- The value of a function's key.
pub data FunctionValue : Type 0 where
  components : List Component → FunctionValue
  not_components : FunctionValue

-- The contents of the file.
pub data Document : Type 0 where
  not_json not_an_object : Document
  entries : List (Text × FunctionValue) → Document

pub data ArgType : Type 0 where
  int_arg string_arg : ArgType

-- `extract_from_array`
unfoldable pub extract : ArgType → Scalar → Option Field
extract int_arg (integer_value i) = some (int i)
extract string_arg (string_value t) = some (str (b'@' ∷ t))
extract _ _ = none

-- `extract_many_from_array`; the array has as many elements as there are types.
unfoldable pub extract_many : List ArgType → List Scalar → Option (List Field)
extract_many [] vs = some []
extract_many (t ∷ ts) [] = none
extract_many (t ∷ ts) (v ∷ vs) = elim (extract t v) [
  | none ↦ none
  | some f ↦ elim (extract_many ts vs) [ none ↦ none | some fs ↦ some (f ∷ fs) ]
]

unfoldable pub write_extracted : Predicate → Text → Option (List Field) → Gen (Unit {0})
write_extracted p function_name none =
    stop (invalid_argument (text "Wrong type of argument for signature!"))
write_extracted p function_name (some fields) = write_fact p (b'@' ∷ function_name) fields

-- `write_pts_signature<Ts...>`
unfoldable pub write_pts_signature :
    Predicate → List ArgType → Text → Text → Arguments → Gen (Unit {0})
unfolding write_extracted
write_pts_signature p types signature_type function_name not_array = stop (
    invalid_argument (text "Signature " ++ signature_type ++ text " expects an array of arguments"))
write_pts_signature p types signature_type function_name (array_value vs) =
    if length vs == length types
    then write_extracted p function_name (extract_many types vs)
    else stop (
        invalid_argument (
          text "Expected "
          ++ to_text (length types)
          ++ text " arguments for signature "
          ++ signature_type
          ++ text " but found "
          ++ to_text (length vs)))

-- The predicate and the argument types of each signature type, in the order of the tests.
unfoldable pub signature_table : List (Text × Predicate × List ArgType)
signature_table =
    (text "pts_none", signature.none, [])
    ∷ (text "pts_return_alloc", signature.return_alloc, [])
    ∷ (text "pts_return_alloc_once", signature.return_alloc_once, [])
    ∷ (text "pts_return_aliases_arg", signature.return_aliases_arg, int_arg ∷ [])
    ∷ (
      text "pts_return_aliases_arg_reachable",
      signature.return_aliases_arg_reachable,
      int_arg ∷ [],
    )
    ∷ (text "pts_return_points_to_global", signature.return_points_to_global, string_arg ∷ [])
    ∷ (text "pts_return_aliases_global", signature.return_aliases_global, string_arg ∷ [])
    ∷ (
      text "pts_return_aliases_global_reachable",
      signature.return_aliases_global_reachable,
      string_arg ∷ [],
    )
    ∷ (text "pts_arg_alloc", signature.arg_alloc, int_arg ∷ [])
    ∷ (text "pts_arg_alloc_once", signature.arg_alloc_once, int_arg ∷ [])
    ∷ (text "pts_arg_memcpy_arg", signature.arg_memcpy_arg, int_arg ∷ int_arg ∷ [])
    ∷ (
      text "pts_arg_memcpy_arg_reachable",
      signature.arg_memcpy_arg_reachable,
      int_arg ∷ int_arg ∷ [],
    )
    ∷ (text "pts_arg_points_to_global", signature.arg_points_to_global, int_arg ∷ string_arg ∷ [])
    ∷ (text "pts_arg_memcpy_global", signature.arg_memcpy_global, int_arg ∷ string_arg ∷ [])
    ∷ (
      text "pts_arg_memcpy_global_reachable",
      signature.arg_memcpy_global_reachable,
      int_arg ∷ string_arg ∷ [],
    )
    ∷ (text "pts_global_memcpy_arg", signature.global_memcpy_arg, string_arg ∷ int_arg ∷ [])
    ∷ (
      text "pts_global_memcpy_arg_reachable",
      signature.global_memcpy_arg_reachable,
      string_arg ∷ int_arg ∷ [],
    )
    ∷ []

unfoldable pub find_signature :
    Text → List (Text × Predicate × List ArgType) → Option (Predicate × List ArgType)
find_signature t [] = none
find_signature t ((k, p, types) ∷ rest) =
    if text_eq k t then some (p, types) else find_signature t rest

-- The signature types that are not for the points-to analysis.
unfoldable pub is_skipped : Text → Bool
is_skipped t = text_eq (text "dataflow") t || text_eq (text "output") t || text_eq (text "input") t

unfoldable pub invalid_signature : Text → Text
invalid_signature function_name =
    text "Invalid signature for function " ++ function_name ++ text ": "

unfoldable pub emit_known :
    Text → Text → Arguments → Option (Predicate × List ArgType) → Gen (Unit {0})
emit_known function_name t arguments none = stop (
    invalid_argument
      (invalid_signature function_name ++ text ": unknown signature type '" ++ t ++ b'\'' ∷ []))
emit_known function_name t arguments (some (p, types)) =
    write_pts_signature p types t function_name arguments

-- One round of the loop of `emit_signatures`.
unfoldable pub emit_component : Text → Component → Gen (Unit {0})
emit_component function_name (object_value ((t, arguments) ∷ [])) =
    if is_skipped t
    then pure tt
    else emit_known function_name t arguments (find_signature t signature_table)
emit_component function_name _ = stop (invalid_argument (invalid_signature function_name))

unfoldable pub emit_signatures : Text → List Component → Gen (Unit {0})
emit_signatures function_name signatures = for_each signatures (emit_component function_name)

-- The loop of `preprocess_signatures`; the message grows by each function that it passes.
unfoldable pub preprocess_entries :
    Externals → Text → List (Text × FunctionValue) → Gen (List (Text × List Component))
preprocess_entries x message [] = pure []
preprocess_entries x message ((n, not_components) ∷ rest) =
    stop (invalid_argument (message ++ text " had an invalid signature for " ++ n))
preprocess_entries x message ((n, components cs) ∷ rest) =
    let later = preprocess_entries x (message ++ text " had an invalid signature for " ++ n) rest in
    if x.regex_compiles n then (do more ← later; pure ((n, cs) ∷ more)) else stop regex_error

unfoldable pub preprocess_signatures :
    Externals → Text → Document → Gen (List (Text × List Component))
preprocess_signatures x path not_json =
    stop (invalid_argument (text "Invalid signatures file: " ++ path ++ text " was not valid JSON"))
preprocess_signatures x path not_an_object =
    stop
      (invalid_argument (text "Invalid signatures file: " ++ path ++ text " was not a JSON object"))
preprocess_signatures x path (entries es) =
    preprocess_entries x (text "Invalid signatures file: " ++ path) es
