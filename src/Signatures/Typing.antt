-- ===== src/Signatures/Typing.antt =====
-- FactGenerator/src/Signatures.cpp, `write_pts_signature`: which arguments it accepts, and what it
-- writes of them.
use cclyzerpp.Prelude.{
  suc, Text, some, List, [], ◌∷◌, ◌≡◌, refl, subst, sym, ap, length, Bool-cases, Option-cases, inl,
  inr, ◌==◌, ==_iff, ◌⊎◌, arith,
}
use cclyzerpp.Predicates.{Predicate}
use cclyzerpp.Gen.{
  Field, str, int, State, Outcome, done, stopped, write_fact, stop, invalid_argument,
}
use cclyzerpp.Signatures.{
  ArgType, int_arg, string_arg, Scalar, integer_value, string_value, other_value, Arguments,
  array_value, not_array, extract, extract_many, write_extracted, write_pts_signature,
}

-- The column of a JSON value of a type: an integer as it is, a string behind '@'.
abbrev StandsFor : ArgType → Scalar → Field → Type 0
StandsFor int_arg (integer_value i) f = f ≡ int i
StandsFor string_arg (string_value t) f = f ≡ str (b'@' ∷ t)
StandsFor _ _ f = ⊥

abbrev AllStandFor : List ArgType → List Scalar → List Field → Type 0
AllStandFor [] [] [] = Unit
AllStandFor (t ∷ ts) (v ∷ vs) (f ∷ fs) = StandsFor t v f × AllStandFor ts vs fs
AllStandFor _ _ _ = ⊥

-- The columns of an array, which has a value of each type, in the order of the types.
abbrev pub AreColumns : List ArgType → Arguments → List Field → Type 0
AreColumns ts not_array fs = ⊥
AreColumns ts (array_value vs) fs = AllStandFor ts vs fs

length-AllStandFor :
    (ts : List ArgType) (vs : List Scalar) (fs : List Field)
    → AllStandFor ts vs fs
    → length vs ≡ length ts
length-AllStandFor [] [] [] h = refl
length-AllStandFor [] [] (f ∷ fs) h = absurd h
length-AllStandFor [] (v ∷ vs) fs h = absurd h
length-AllStandFor (t ∷ ts) [] fs h = absurd h
length-AllStandFor (t ∷ ts) (v ∷ vs) [] h = absurd h
length-AllStandFor (t ∷ ts) (v ∷ vs) (f ∷ fs) (h, hs) = ap suc (length-AllStandFor ts vs fs hs)

extract-StandsFor : (t : ArgType) (v : Scalar) (f : Field) → extract t v ≡ some f → StandsFor t v f
unfolding extract
extract-StandsFor int_arg (integer_value i) f h = cc
extract-StandsFor int_arg (string_value s) f h = cc
extract-StandsFor int_arg other_value f h = cc
extract-StandsFor string_arg (integer_value i) f h = cc
extract-StandsFor string_arg (string_value s) f h = cc
extract-StandsFor string_arg other_value f h = cc

extract_complete : (t : ArgType) (v : Scalar) (f : Field) → StandsFor t v f → extract t v ≡ some f
unfolding extract
extract_complete int_arg (integer_value i) f h = ap some (sym h)
extract_complete int_arg (string_value s) f h = absurd h
extract_complete int_arg other_value f h = absurd h
extract_complete string_arg (integer_value i) f h = absurd h
extract_complete string_arg other_value f h = absurd h
extract_complete string_arg (string_value s) f h = ap some (sym h)

extract_many-AllStandFor :
    (ts : List ArgType) (vs : List Scalar) (fs : List Field)
    → length vs ≡ length ts
    → extract_many ts vs ≡ some fs
    → AllStandFor ts vs fs
unfolding extract_many
extract_many-AllStandFor [] [] fs n h = let e : [] ≡ fs = cc in subst (AllStandFor [] []) e tt
extract_many-AllStandFor [] (v ∷ vs) fs n h = absurd (omega arith)
extract_many-AllStandFor (t ∷ ts) [] fs n h = cc
extract_many-AllStandFor (t ∷ ts) (v ∷ vs) fs n h = elim (Option-cases (extract t v)) [
  | inl e ↦ cc (rw (e, extract_many) at h)
  | inr (f, e) ↦ elim (Option-cases (extract_many ts vs)) [
    | inl e' ↦ cc (rw (e, extract_many, e') at h)
    | inr (gs, e') ↦
        let same : f ∷ gs ≡ fs = cc (rw (e, extract_many, e') at h) in
        subst (AllStandFor (t ∷ ts) (v ∷ vs)) same
          (extract-StandsFor t v f e, extract_many-AllStandFor ts vs gs (omega arith) e')
  ]
]

extract_many_complete :
    (ts : List ArgType) (vs : List Scalar) (fs : List Field)
    → AllStandFor ts vs fs
    → extract_many ts vs ≡ some fs
unfolding extract_many
extract_many_complete [] [] [] h = refl
extract_many_complete [] [] (f ∷ fs) h = absurd h
extract_many_complete [] (v ∷ vs) fs h = absurd h
extract_many_complete (t ∷ ts) [] fs h = absurd h
extract_many_complete (t ∷ ts) (v ∷ vs) [] h = absurd h
extract_many_complete (t ∷ ts) (v ∷ vs) (f ∷ fs) (h, hs) =
    rw (extract_complete t v f h, extract_many, extract_many_complete ts vs fs hs) refl

-- Either the columns of the arguments are written in one fact, or there are none and nothing is
-- written.
abbrev pub WritesColumns :
    Predicate → List ArgType → Text → Arguments → State → Outcome (Unit {0}) → Type 0
WritesColumns p ts n a s o =
    ((fields : List Field) × AreColumns ts a fields
      × (o
          ≡ done tt (record s {
            log = record { predicate = p; key = b'@' ∷ n; fields = fields } ∷ s.log;
          })))
    ⊎ ((¬ ((fields : List Field) × AreColumns ts a fields))
        × ((e : Text) × (o ≡ stopped (invalid_argument e) s)))

-- `write_pts_signature` succeeds exactly when it is given an array with one value of each argument
-- type of the signature, in their order: it then writes one fact, under the function's name with '@'
-- before it, whose columns are these integers, and these strings with '@' before them. Otherwise it
-- throws `invalid_argument` and writes nothing.
pub write_pts_signature-WritesColumns :
    (p : Predicate) (ts : List ArgType) (signature_type n : Text) (a : Arguments) (s : State)
    → WritesColumns p ts n a s (write_pts_signature p ts signature_type n a s)
unfolding write_pts_signature write_extracted write_fact stop
write_pts_signature-WritesColumns p ts k n not_array s = inr (λ h. h.1, (_, refl))
write_pts_signature-WritesColumns p ts k n (array_value vs) s =
    elim (Bool-cases (length vs == length ts)) [
      | inl e ↦ elim (Option-cases (extract_many ts vs)) [
        | inl none_found ↦
            rw (e, none_found, write_extracted)
              (inr (λ h. cc (extract_many_complete ts vs h.0 h.1, none_found), (_, refl)))
        | inr (fs, found) ↦
            rw (e, found, write_extracted)
              (inl (fs, extract_many-AllStandFor ts vs fs ((==_iff _ _).0 e) found, refl))
      ]
      | inr e ↦ rw e (
          inr (
            λ h. let same = (==_iff _ _).1 (length-AllStandFor ts vs h.0 h.1) in cc (same, e),
            (_, refl),
          ))
    ]
