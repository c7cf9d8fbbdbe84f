-- ===== src/Writer/Contents.antt =====
-- FactGenerator/src/FactWriter.cpp: the files against their abstract view, a function from the name
-- of a predicate to what is written under it.
use mathlib.Core.List.{append_assoc, append-nil}
use cclyzerpp.Prelude.{
  Text, text_eq, text_eq_sound, text_eq_refl, false, Option, none, some, List, [], ◌∷◌, ◌++◌, ◌≡◌,
  refl, sym, ap, ◌∙◌, subst, Bool-cases, Option-cases, inl, inr, if◌then◌else◌, All,
}
use cclyzerpp.Predicates.{Predicate}
use cclyzerpp.Gen.{Fact}
use cclyzerpp.Writer.Csv.{CsvWriter, new_csv_writer, line, write}
use cclyzerpp.Writer.{
  FactWriter, name_of, find_writer, at_writer, get_path, get_writer, init_writers, new_fact_writer,
  write_fact_line, write_log,
}

abbrev pub text_of : Option CsvWriter → Text
text_of none = []
text_of (some w) = w.contents

-- What is written under a name.
unfoldable pub contents_of : Text → FactWriter → Text
contents_of key fw = text_of (find_writer key fw.writers)

-- The lines of the facts of a name, in the order in which they were written.
unfoldable pub lines_of : Text → Text → List Fact → Text
lines_of delim key [] = []
lines_of delim key (f ∷ fs) =
    let before = lines_of delim key fs in
    if text_eq (name_of f.predicate) key then before ++ line delim f.key f.fields else before

-- Each writer has the delimiter of the object.
abbrev pub IsUniform : FactWriter → Type 0
IsUniform fw = All (λ kw. kw.1.delimiter ≡ fw.delim) fw.writers

abbrev pub map_some : (CsvWriter → CsvWriter) → Option CsvWriter → Option CsvWriter
map_some f none = none
map_some f (some w) = some (f w)

pub find_writer-at_writer_self :
    (f : CsvWriter → CsvWriter) (key : Text) (ws : List (Text × CsvWriter))
    → find_writer key (at_writer f key ws) ≡ map_some f (find_writer key ws)
unfolding find_writer at_writer
find_writer-at_writer_self f key [] = refl
find_writer-at_writer_self f key ((j, w) ∷ ws) = elim (Bool-cases (text_eq j key)) [
  | inl e ↦ rw (e, find_writer, e) refl
  | inr e ↦ rw (e, find_writer, e) (find_writer-at_writer_self f key ws)
]

pub find_writer-at_writer_ne :
    (f : CsvWriter → CsvWriter) (k key : Text) (ws : List (Text × CsvWriter))
    → text_eq k key ≡ false
    → find_writer key (at_writer f k ws) ≡ find_writer key ws
unfolding find_writer at_writer
find_writer-at_writer_ne f k key [] n = refl
find_writer-at_writer_ne f k key ((j, w) ∷ ws) n = elim (Bool-cases (text_eq j k)) [
  | inl e ↦
      let other : text_eq j key ≡ false = rw (text_eq_sound j k e) n in
      rw (e, find_writer, other) refl
  | inr e ↦ elim (Bool-cases (text_eq j key)) [
    | inl e' ↦ rw (e, find_writer, e') refl
    | inr e' ↦ rw (e, find_writer, e') (find_writer-at_writer_ne f k key ws n)
  ]
]

find_writer-uniform :
    (d key : Text) (ws : List (Text × CsvWriter)) (w : CsvWriter)
    → All (λ kw. kw.1.delimiter ≡ d) ws
    → find_writer key ws ≡ some w
    → w.delimiter ≡ d
unfolding find_writer
find_writer-uniform d key [] w u h = cc
find_writer-uniform d key ((j, v) ∷ ws) w u h = elim (Bool-cases (text_eq j key)) [
  | inl e ↦ let same : v ≡ w = cc (rw e at h) in subst (λ w. w.delimiter ≡ d) same u.0
  | inr e ↦ find_writer-uniform d key ws w u.1 (rw e at h)
]

at_writer-uniform :
    (d : Text) (f : CsvWriter → CsvWriter) (key : Text) (ws : List (Text × CsvWriter))
    → ((w : CsvWriter) → (f w).delimiter ≡ w.delimiter)
    → All (λ kw. kw.1.delimiter ≡ d) ws
    → All (λ kw. kw.1.delimiter ≡ d) (at_writer f key ws)
unfolding at_writer
at_writer-uniform d f key [] k u = tt
at_writer-uniform d f key ((j, w) ∷ ws) k u = elim (Bool-cases (text_eq j key)) [
  | inl e ↦ rw e (k w ∙ u.0, u.1)
  | inr e ↦ rw e (u.0, at_writer-uniform d f key ws k u.1)
]

module _ (join : Text → Text → Text) where
  -- `getWriter` leaves the files as they are, and the writer that it returns is there.
  get_writer-IsUniform :
      (p : Predicate) (fw : FactWriter) → IsUniform fw → IsUniform (get_writer join p fw)
  unfolding get_writer new_csv_writer
  get_writer-IsUniform p fw u = elim (Option-cases (find_writer (name_of p) fw.writers)) [
    | inl e ↦ rw (e, get_writer) (refl, u)
    | inr (w, e) ↦ rw (e, get_writer) u
  ]

  contents_of-get_writer :
      (key : Text) (p : Predicate) (fw : FactWriter)
      → contents_of key (get_writer join p fw) ≡ contents_of key fw
  unfolding contents_of get_writer find_writer new_csv_writer
  contents_of-get_writer key p fw = elim (Option-cases (find_writer (name_of p) fw.writers)) [
    | inl e ↦ elim (Bool-cases (text_eq (name_of p) key)) [
      | inl e' ↦
          let missing : find_writer key fw.writers ≡ none =
            subst (λ k. find_writer k fw.writers ≡ none) (text_eq_sound (name_of p) key e') e in
          rw (get_writer, e, contents_of, find_writer, e') (rw missing refl)
      | inr e' ↦ rw (get_writer, e, contents_of, find_writer, e') refl
    ]
    | inr (w, e) ↦ rw (get_writer, e) refl
  ]

  get_writer-found :
      (p : Predicate) (fw : FactWriter)
      → (w : CsvWriter) × (find_writer (name_of p) (get_writer join p fw).writers ≡ some w)
  unfolding get_writer find_writer
  get_writer-found p fw = elim (Option-cases (find_writer (name_of p) fw.writers)) [
    | inl e ↦ (
      new_csv_writer (get_path join fw.outdir p) fw.delim,
      rw (get_writer, e, find_writer, text_eq_refl (name_of p)) refl,
    )
    | inr (w, e) ↦ (w, rw (get_writer, e) e)
  ]

  delim-get_writer : (p : Predicate) (fw : FactWriter) → (get_writer join p fw).delim ≡ fw.delim
  unfolding get_writer
  delim-get_writer p fw = elim (Option-cases (find_writer (name_of p) fw.writers)) [
    | inl e ↦ rw (get_writer, e) refl
    | inr (w, e) ↦ rw (get_writer, e) refl
  ]

  write_fact_line-IsUniform :
      (f : Fact) (fw : FactWriter) → IsUniform fw → IsUniform (write_fact_line join f fw)
  unfolding write_fact_line write
  write_fact_line-IsUniform f fw u =
      at_writer-uniform _ (write f.key f.fields) (name_of f.predicate) _ (λ w. refl)
        (get_writer-IsUniform f.predicate fw u)

  -- A line goes to the end of the file of its predicate.
  contents_of-write_fact_line_self :
      (f : Fact) (fw : FactWriter)
      → IsUniform fw
      → contents_of (name_of f.predicate) (write_fact_line join f fw)
        ≡ contents_of (name_of f.predicate) fw ++ line fw.delim f.key f.fields
  unfolding write_fact_line contents_of write
  contents_of-write_fact_line_self f fw u =
      let got = get_writer join f.predicate fw in
      let (w, found) = get_writer-found f.predicate fw in
      let before : w.contents ≡ contents_of (name_of f.predicate) fw =
        ap text_of (sym found) ∙ contents_of-get_writer (name_of f.predicate) f.predicate fw in
      let delimiter : w.delimiter ≡ fw.delim =
        find_writer-uniform got.delim _ got.writers w (get_writer-IsUniform f.predicate fw u) found
        ∙ delim-get_writer f.predicate fw in
      ap text_of (
        find_writer-at_writer_self (write f.key f.fields) (name_of f.predicate) got.writers
        ∙ ap (map_some (write f.key f.fields)) found)
      ∙ ap (λ d. w.contents ++ line d f.key f.fields) delimiter
      ∙ ap (λ b. b ++ line fw.delim f.key f.fields) before

  contents_of-write_fact_line_ne :
      (key : Text) (f : Fact) (fw : FactWriter)
      → text_eq (name_of f.predicate) key ≡ false
      → contents_of key (write_fact_line join f fw) ≡ contents_of key fw
  unfolding write_fact_line contents_of
  contents_of-write_fact_line_ne key f fw n =
      ap text_of (find_writer-at_writer_ne _ (name_of f.predicate) key _ n)
      ∙ contents_of-get_writer key f.predicate fw

  write_log-IsUniform :
      (fs : List Fact) (fw : FactWriter) → IsUniform fw → IsUniform (write_log join fs fw)
  unfolding write_log
  write_log-IsUniform [] fw u = u
  write_log-IsUniform (f ∷ fs) fw u =
      write_fact_line-IsUniform f (write_log join fs fw) (write_log-IsUniform fs fw u)

  delim-write_log : (fs : List Fact) (fw : FactWriter) → (write_log join fs fw).delim ≡ fw.delim
  unfolding write_log write_fact_line
  delim-write_log [] fw = refl
  delim-write_log (f ∷ fs) fw =
      delim-get_writer f.predicate (write_log join fs fw) ∙ delim-write_log fs fw

  contents_of-write_log :
      (key : Text) (fs : List Fact) (fw : FactWriter)
      → IsUniform fw
      → contents_of key (write_log join fs fw) ≡ contents_of key fw ++ lines_of fw.delim key fs
  unfolding write_log lines_of
  contents_of-write_log key [] fw u = sym (append-nil _)
  contents_of-write_log key (f ∷ fs) fw u =
      let ih = contents_of-write_log key fs fw u in
      let later = write_log-IsUniform fs fw u in
      elim (Bool-cases (text_eq (name_of f.predicate) key)) [
        | inl e ↦
            let same = text_eq_sound (name_of f.predicate) key e in
            let self = contents_of-write_fact_line_self f (write_log join fs fw) later in
            rw e (
              subst
                (λ k.
                  contents_of k (write_log join (f ∷ fs) fw)
                  ≡ contents_of k (write_log join fs fw)
                    ++ line (write_log join fs fw).delim f.key f.fields)
                same self
              ∙ ap (λ d. contents_of key (write_log join fs fw) ++ line d f.key f.fields)
                  (delim-write_log fs fw)
              ∙ ap (λ b. b ++ line fw.delim f.key f.fields) ih
              ∙ append_assoc (contents_of key fw) (lines_of fw.delim key fs) _)
        | inr e ↦ rw e (contents_of-write_fact_line_ne key f (write_log join fs fw) e ∙ ih)
      ]

  init_writers-IsUniform :
      (ps : List Predicate) (fw : FactWriter) → IsUniform fw → IsUniform (init_writers join ps fw)
  unfolding init_writers
  init_writers-IsUniform [] fw u = u
  init_writers-IsUniform (p ∷ ps) fw u =
      init_writers-IsUniform ps (get_writer join p fw) (get_writer-IsUniform p fw u)

  contents_of-init_writers :
      (key : Text) (ps : List Predicate) (fw : FactWriter)
      → contents_of key (init_writers join ps fw) ≡ contents_of key fw
  unfolding init_writers
  contents_of-init_writers key [] fw = refl
  contents_of-init_writers key (p ∷ ps) fw =
      contents_of-init_writers key ps (get_writer join p fw) ∙ contents_of-get_writer key p fw

  delim-init_writers :
      (ps : List Predicate) (fw : FactWriter) → (init_writers join ps fw).delim ≡ fw.delim
  unfolding init_writers
  delim-init_writers [] fw = refl
  delim-init_writers (p ∷ ps) fw =
      delim-init_writers ps (get_writer join p fw) ∙ delim-get_writer p fw

  -- A new writer that is handed the facts of a log, the oldest first, has under each name the lines
  -- of the facts whose predicate has that name, in the order in which they were handed over, and
  -- nothing else.
  pub contents_of-new_fact_writer :
      (registry : List Predicate) (outdir delim key : Text) (facts : List Fact)
      → contents_of key (write_log join facts (new_fact_writer join registry outdir delim))
        ≡ lines_of delim key facts
  unfolding new_fact_writer contents_of lines_of find_writer
  contents_of-new_fact_writer registry outdir delim key facts =
      let empty : FactWriter = record {
        delim = delim;
        outdir = outdir;
        writers = [];
        opened = [];
      } in
      let new = init_writers join registry empty in
      contents_of-write_log key facts new (init_writers-IsUniform registry empty tt)
      ∙ ap (λ b. b ++ lines_of new.delim key facts) (contents_of-init_writers key registry empty)
      ∙ ap (λ d. lines_of d key facts) (delim-init_writers registry empty)
