-- ===== src/Writer/Files.antt =====
-- FactGenerator/src/FactWriter.cpp: which file a predicate has.
use cclyzerpp.Prelude.{
  Text, text, text_eq, text_eq_sound, text_eq_refl, none, some, List, [], ◌∷◌, ◌++◌, ◌≡◌, refl, sym,
  ap, ◌∙◌, subst, Bool-cases, Option-cases, inl, inr, All, Occurs, replace_char,
}
use cclyzerpp.Predicates.{Predicate}
use cclyzerpp.Gen.{Fact}
use cclyzerpp.Writer.Csv.{CsvWriter, new_csv_writer, write}
use cclyzerpp.Writer.{
  FactWriter, name_of, find_writer, at_writer, get_path, get_writer, init_writers, new_fact_writer,
  write_fact_line, write_log,
}

-- The path that belongs to a name.
unfoldable pub path_of : (Text → Text → Text) → Text → Text → Text
unfolding replace_char text
path_of join outdir key = join outdir (replace_char b':' b'-' key) ++ text ".csv.gz"

module _ (join : Text → Text → Text) where
  -- The name has a writer, whose file is at its path.
  abbrev pub HasFile : Text → FactWriter → Type 0
  HasFile key fw =
      (w : CsvWriter) × (find_writer key fw.writers ≡ some w)
      × (w.file ≡ path_of join fw.outdir key)

  pub outdir-get_writer :
      (p : Predicate) (fw : FactWriter) → (get_writer join p fw).outdir ≡ fw.outdir
  unfolding get_writer
  outdir-get_writer p fw = elim (Option-cases (find_writer (name_of p) fw.writers)) [
    | inl e ↦ rw (get_writer, e) refl
    | inr (w, e) ↦ rw (get_writer, e) refl
  ]

  -- Whatever has a file keeps it.
  get_writer-HasFile :
      (key : Text) (p : Predicate) (fw : FactWriter)
      → HasFile key fw
      → HasFile key (get_writer join p fw)
  unfolding get_writer find_writer path_of get_path name_of new_csv_writer
  get_writer-HasFile key p fw (w, found, at_path) =
      elim (Option-cases (find_writer (name_of p) fw.writers)) [
        | inl e ↦ elim (Bool-cases (text_eq (name_of p) key)) [
          | inl e' ↦
              let missing : find_writer key fw.writers ≡ none =
                subst (λ k. find_writer k fw.writers ≡ none) (text_eq_sound (name_of p) key e') e in
              cc (missing, found)
          | inr e' ↦ rw (get_writer, e, find_writer, e') (w, found, at_path)
        ]
        | inr (v, e) ↦ rw (get_writer, e) (w, found, at_path)
      ]

  -- Every writer's file is at the path of its name.
  abbrev pub IsPlaced : FactWriter → Type 0
  IsPlaced fw = All (λ kw. kw.1.file ≡ path_of join fw.outdir kw.0) fw.writers

  pub get_writer-IsPlaced :
      (p : Predicate) (fw : FactWriter) → IsPlaced fw → IsPlaced (get_writer join p fw)
  unfolding get_writer new_csv_writer path_of get_path
  get_writer-IsPlaced p fw h = elim (Option-cases (find_writer (name_of p) fw.writers)) [
    | inl e ↦ rw (e, get_writer) (refl, h)
    | inr (w, e) ↦ rw (e, get_writer) h
  ]

  find_writer-placed :
      (outdir key : Text) (ws : List (Text × CsvWriter)) (w : CsvWriter)
      → All (λ kw. kw.1.file ≡ path_of join outdir kw.0) ws
      → find_writer key ws ≡ some w
      → w.file ≡ path_of join outdir key
  unfolding find_writer
  find_writer-placed outdir key [] w h e = cc
  find_writer-placed outdir key ((j, v) ∷ ws) w (h, hs) e = elim (Bool-cases (text_eq j key)) [
    | inl same ↦
        let writer : v ≡ w = cc (rw same at e) in
        sym (ap (λ v. v.file) writer) ∙ h ∙ ap (path_of join outdir) (text_eq_sound j key same)
    | inr other ↦ find_writer-placed outdir key ws w hs (rw other at e)
  ]

  get_writer-HasFile_self :
      (p : Predicate) (fw : FactWriter) → IsPlaced fw → HasFile (name_of p) (get_writer join p fw)
  unfolding get_writer find_writer new_csv_writer path_of get_path
  get_writer-HasFile_self p fw h = elim (Option-cases (find_writer (name_of p) fw.writers)) [
    | inl e ↦
        rw (get_writer, e, find_writer, text_eq_refl (name_of p))
          (new_csv_writer (get_path join fw.outdir p) fw.delim, refl, refl)
    | inr (w, e) ↦
        rw (get_writer, e) (w, e, find_writer-placed fw.outdir (name_of p) fw.writers w h e)
  ]

  -- Writing into a file does not move it.
  at_writer-found :
      (f : CsvWriter → CsvWriter) (k key outdir : Text) (ws : List (Text × CsvWriter))
      → ((w : CsvWriter) → (f w).file ≡ w.file)
      → (w : CsvWriter) × (find_writer key ws ≡ some w) × (w.file ≡ path_of join outdir key)
      → (w : CsvWriter) × (find_writer key (at_writer f k ws) ≡ some w)
        × (w.file ≡ path_of join outdir key)
  unfolding find_writer at_writer
  at_writer-found f k key outdir [] keeps (w, e, p) = cc
  at_writer-found f k key outdir ((j, v) ∷ ws) keeps (w, e, p) = elim (Bool-cases (text_eq j k)) [
    | inl changed ↦ elim (Bool-cases (text_eq j key)) [
      | inl same ↦
          let writer : v ≡ w = cc (rw same at e) in
          rw (changed, find_writer, same) (f v, refl, keeps v ∙ ap (λ v. v.file) writer ∙ p)
      | inr other ↦ rw (changed, find_writer, other) (w, rw other at e, p)
    ]
    | inr unchanged ↦ elim (Bool-cases (text_eq j key)) [
      | inl same ↦ rw (unchanged, find_writer, same) (w, rw same at e, p)
      | inr other ↦
          rw (unchanged, find_writer, other)
            (at_writer-found f k key outdir ws keeps (w, rw other at e, p))
    ]
  ]

  write_fact_line-HasFile :
      (key : Text) (f : Fact) (fw : FactWriter)
      → HasFile key fw
      → HasFile key (write_fact_line join f fw)
  unfolding write_fact_line write
  write_fact_line-HasFile key f fw h =
      at_writer-found (write f.key f.fields) _ key (get_writer join f.predicate fw).outdir _
        (λ w. refl) (get_writer-HasFile key f.predicate fw h)

  write_log-HasFile :
      (key : Text) (fs : List Fact) (fw : FactWriter)
      → HasFile key fw
      → HasFile key (write_log join fs fw)
  unfolding write_log
  write_log-HasFile key [] fw h = h
  write_log-HasFile key (f ∷ fs) fw h =
      write_fact_line-HasFile key f (write_log join fs fw) (write_log-HasFile key fs fw h)

  init_writers-HasFile :
      (key : Text) (ps : List Predicate) (fw : FactWriter)
      → HasFile key fw
      → HasFile key (init_writers join ps fw)
  unfolding init_writers
  init_writers-HasFile key [] fw h = h
  init_writers-HasFile key (p ∷ ps) fw h =
      init_writers-HasFile key ps (get_writer join p fw) (get_writer-HasFile key p fw h)

  init_writers-HasFile_member :
      (p : Predicate) (ps : List Predicate) (fw : FactWriter)
      → IsPlaced fw
      → Occurs p ps
      → HasFile (name_of p) (init_writers join ps fw)
  unfolding init_writers
  init_writers-HasFile_member p [] fw h m = absurd m
  init_writers-HasFile_member p (q ∷ ps) fw h (inl same) =
      init_writers-HasFile (name_of p) ps (get_writer join q fw) (
        subst (λ q. HasFile (name_of p) (get_writer join q fw)) same
          (get_writer-HasFile_self p fw h))
  init_writers-HasFile_member p (q ∷ ps) fw h (inr m) =
      init_writers-HasFile_member p ps (get_writer join q fw) (get_writer-IsPlaced q fw h) m

  -- Every predicate of the registry has a file, at its path, whatever facts have been written.
  pub new_fact_writer-HasFile :
      (registry : List Predicate) (outdir delim : Text) (facts : List Fact) (p : Predicate)
      → Occurs p registry
      → HasFile (name_of p) (write_log join facts (new_fact_writer join registry outdir delim))
  unfolding new_fact_writer
  new_fact_writer-HasFile registry outdir delim facts p m =
      write_log-HasFile (name_of p) facts _ (init_writers-HasFile_member p registry _ tt m)
