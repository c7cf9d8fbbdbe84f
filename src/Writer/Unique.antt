-- ===== src/Writer/Unique.antt =====
-- FactGenerator/src/FactWriter.cpp: the map of writers has one writer for each name, so that the
-- writer found under a name is the one that is there.
use cclyzerpp.Prelude.{
  Text, text_eq, text_eq_sound, text_eq_refl, true, none, some, List, [], ◌∷◌, ◌≡◌, sym, ap, ◌∙◌,
  subst, Bool-cases, Option-cases, inl, inr, Occurs,
}
use cclyzerpp.Predicates.{Predicate}
use cclyzerpp.Gen.{Fact}
use cclyzerpp.Writer.Csv.{CsvWriter, write}
use cclyzerpp.Writer.{
  FactWriter, name_of, find_writer, at_writer, get_writer, init_writers, new_fact_writer,
  write_fact_line, write_log,
}
use cclyzerpp.Writer.Contents.{find_writer-at_writer_self, find_writer-at_writer_ne, map_some}

abbrev pub IsUnique : List (Text × CsvWriter) → Type 0
IsUnique [] = Unit
IsUnique ((k, w) ∷ ws) = (find_writer k ws ≡ none) × IsUnique ws

at_writer-none :
    (f : CsvWriter → CsvWriter) (key k : Text) (ws : List (Text × CsvWriter))
    → find_writer k ws ≡ none
    → find_writer k (at_writer f key ws) ≡ none
at_writer-none f key k ws h = elim (Bool-cases (text_eq key k)) [
  | inl e ↦
      let same : find_writer key ws ≡ none =
        subst (λ j. find_writer j ws ≡ none) (sym (text_eq_sound key k e)) h in
      subst (λ j. find_writer j (at_writer f key ws) ≡ none) (text_eq_sound key k e)
        (find_writer-at_writer_self f key ws ∙ ap (map_some f) same)
  | inr e ↦ find_writer-at_writer_ne f key k ws e ∙ h
]

at_writer-IsUnique :
    (f : CsvWriter → CsvWriter) (key : Text) (ws : List (Text × CsvWriter))
    → IsUnique ws
    → IsUnique (at_writer f key ws)
unfolding at_writer
at_writer-IsUnique f key [] u = tt
at_writer-IsUnique f key ((k, w) ∷ ws) (n, u) = elim (Bool-cases (text_eq k key)) [
  | inl e ↦ rw e (n, u)
  | inr e ↦ rw e (at_writer-none f key k ws n, at_writer-IsUnique f key ws u)
]

-- What stands in the map is found.
pub find_writer-Occurs :
    (k : Text) (w : CsvWriter) (ws : List (Text × CsvWriter))
    → IsUnique ws
    → Occurs (k, w) ws
    → find_writer k ws ≡ some w
unfolding find_writer
find_writer-Occurs k w [] u m = absurd m
find_writer-Occurs k w ((j, v) ∷ ws) (n, u) (inl e) =
    let key : j ≡ k = sym (ap (λ p. p.0) e) in
    let writer : v ≡ w = sym (ap (λ p. p.1) e) in
    let found : text_eq j k ≡ true = subst (λ i. text_eq j i ≡ true) key (text_eq_refl j) in
    rw found (ap some writer)
find_writer-Occurs k w ((j, v) ∷ ws) (n, u) (inr m) = elim (Bool-cases (text_eq j k)) [
  | inl e ↦
      let missing : find_writer k ws ≡ none =
        subst (λ i. find_writer i ws ≡ none) (text_eq_sound j k e) n in
      let found = find_writer-Occurs k w ws u m in cc (missing, found)
  | inr e ↦ rw e (find_writer-Occurs k w ws u m)
]

-- What is found stands in the map.
pub Occurs-find_writer :
    (k : Text) (w : CsvWriter) (ws : List (Text × CsvWriter))
    → find_writer k ws ≡ some w
    → Occurs (k, w) ws
unfolding find_writer
Occurs-find_writer k w [] e = cc
Occurs-find_writer k w ((j, v) ∷ ws) e = elim (Bool-cases (text_eq j k)) [
  | inl same ↦
      let writer : v ≡ w = cc (rw same at e) in
      inl (sym (ap (λ i. (i, v)) (text_eq_sound j k same) ∙ ap (λ u. (k, u)) writer))
  | inr other ↦ inr (Occurs-find_writer k w ws (rw other at e))
]

module _ (join : Text → Text → Text) where
  get_writer-IsUnique :
      (p : Predicate) (fw : FactWriter)
      → IsUnique fw.writers
      → IsUnique (get_writer join p fw).writers
  unfolding get_writer
  get_writer-IsUnique p fw u = elim (Option-cases (find_writer (name_of p) fw.writers)) [
    | inl e ↦ rw (get_writer, e) (e, u)
    | inr (w, e) ↦ rw (get_writer, e) u
  ]

  init_writers-IsUnique :
      (ps : List Predicate) (fw : FactWriter)
      → IsUnique fw.writers
      → IsUnique (init_writers join ps fw).writers
  unfolding init_writers
  init_writers-IsUnique [] fw u = u
  init_writers-IsUnique (p ∷ ps) fw u =
      init_writers-IsUnique ps (get_writer join p fw) (get_writer-IsUnique p fw u)

  write_log-IsUnique :
      (facts : List Fact) (fw : FactWriter)
      → IsUnique fw.writers
      → IsUnique (write_log join facts fw).writers
  unfolding write_log write_fact_line
  write_log-IsUnique [] fw u = u
  write_log-IsUnique (f ∷ fs) fw u =
      at_writer-IsUnique (write f.key f.fields) (name_of f.predicate) _
        (get_writer-IsUnique f.predicate (write_log join fs fw) (write_log-IsUnique fs fw u))

  pub new_fact_writer-IsUnique :
      (registry : List Predicate) (outdir delim : Text) (facts : List Fact)
      → IsUnique (write_log join facts (new_fact_writer join registry outdir delim)).writers
  unfolding new_fact_writer
  new_fact_writer-IsUnique registry outdir delim facts =
      write_log-IsUnique facts _ (init_writers-IsUnique registry _ tt)
