-- ===== src/Integrity/Signatures.antt =====
-- Reading and emitting points-to signatures keeps integrity.
use cclyzerpp.Prelude.{
  Text, text_eq, true, false, Option, none, some, List, [], ◌∷◌, ◌≡◌, refl, Bool-cases, inl, inr,
}
use cclyzerpp.Predicates.{Predicate}
use cclyzerpp.Externals.{Externals}
use cclyzerpp.Signatures.{
  Component, object_value, not_object, Arguments, array_value, not_array, ArgType, FunctionValue,
  components, not_components, Document, not_json, not_an_object, entries, find_signature,
  signature_table, emit_known, emit_component, emit_signatures, write_pts_signature,
  write_extracted, preprocess_entries, preprocess_signatures,
}
use cclyzerpp.Generate.{emit_matching, process_signatures}
use cclyzerpp.Gen.{Field}
use cclyzerpp.Integrity.{refers}
use cclyzerpp.Integrity.Rules.{
  Safe, Safe-write, Safe-pure, Safe-stop, Safe-bind, Safe-if, Safe-for_each,
}

write_extracted-Safe :
    (p : Predicate) (n : Text) (fs : Option (List Field))
    → refers p ≡ false
    → Safe (write_extracted p n fs)
unfolding write_extracted
write_extracted-Safe p n none e = Safe-stop _
write_extracted-Safe p n (some fs) e = Safe-write p _ fs e

write_pts_signature-Safe :
    (p : Predicate) (ts : List ArgType) (t n : Text) (a : Arguments)
    → refers p ≡ false
    → Safe (write_pts_signature p ts t n a)
unfolding write_pts_signature
write_pts_signature-Safe p ts t n not_array e = Safe-stop _
write_pts_signature-Safe p ts t n (array_value vs) e =
    Safe-if _ _ _ (write_extracted-Safe p n _ e) (Safe-stop _)

-- No signature predicate has an operand column.
abbrev Unreferring : List (Text × Predicate × List ArgType) → Type 0
Unreferring [] = Unit
Unreferring ((k, p, ts) ∷ rest) = (refers p ≡ false) × Unreferring rest

emit_known-Safe :
    (n t : Text) (a : Arguments) (table : List (Text × Predicate × List ArgType))
    → Unreferring table
    → Safe (emit_known n t a (find_signature t table))
unfolding emit_known find_signature
emit_known-Safe n t a [] u = Safe-stop _
emit_known-Safe n t a ((k, p, ts) ∷ rest) u = elim (Bool-cases (text_eq k t)) [
  | inl same ↦ rw same (write_pts_signature-Safe p ts t n a u.0)
  | inr other ↦ rw other (emit_known-Safe n t a rest u.1)
]

signature_table-Unreferring : Unreferring signature_table
unfolding signature_table refers
signature_table-Unreferring = (
  refl,
  (
    refl,
    (
      refl,
      (
        refl,
        (
          refl,
          (
            refl,
            (
              refl,
              (refl, (refl, (refl, (refl, (refl, (refl, (refl, (refl, (refl, (refl, tt)))))))))),
            ),
          ),
        ),
      ),
    ),
  ),
)

emit_component-Safe : (n : Text) (c : Component) → Safe (emit_component n c)
unfolding emit_component
emit_component-Safe n not_object = Safe-stop _
emit_component-Safe n (object_value []) = Safe-stop _
emit_component-Safe n (object_value ((t, a) ∷ [])) =
    Safe-if _ _ _ (Safe-pure tt) (emit_known-Safe n t a signature_table signature_table-Unreferring)
emit_component-Safe n (object_value (e ∷ f ∷ es)) = Safe-stop _

pub emit_matching-Safe :
    (x : Externals) (n : Text) (sigs : List (Text × List Component)) → Safe (emit_matching x n sigs)
unfolding emit_matching emit_signatures
emit_matching-Safe x n [] = Safe-pure false
emit_matching-Safe x n ((r, cs) ∷ rest) =
    Safe-if _ _ _
      (Safe-bind _ _ (Safe-for_each cs _ (emit_component-Safe n))
        (λ u. Safe-bind _ _ (emit_matching-Safe x n rest) (λ b. Safe-pure true)))
      (emit_matching-Safe x n rest)

preprocess_entries-Safe :
    (x : Externals) (es : List (Text × FunctionValue)) (m : Text) → Safe (preprocess_entries x m es)
unfolding preprocess_entries
preprocess_entries-Safe x [] m = Safe-pure []
preprocess_entries-Safe x ((n, not_components) ∷ rest) m = Safe-stop _
preprocess_entries-Safe x ((n, components cs) ∷ rest) m =
    Safe-if _ _ _ (Safe-bind _ _ (preprocess_entries-Safe x rest _) (λ l. Safe-pure _))
      (Safe-stop _)

pub process_signatures-Safe :
    (x : Externals) (d : Option (Text × Document)) → Safe (process_signatures x d)
unfolding process_signatures preprocess_signatures
process_signatures-Safe x none = Safe-pure []
process_signatures-Safe x (some (p, not_json)) = Safe-stop _
process_signatures-Safe x (some (p, not_an_object)) = Safe-stop _
process_signatures-Safe x (some (p, entries es)) = preprocess_entries-Safe x es _
