-- ===== src/Writer/Placed.antt =====
-- FactGenerator/src/FactWriter.cpp: every writer's file stays at the path of its name.
use cclyzerpp.Prelude.{Text, text_eq, List, [], ◌∷◌, ◌≡◌, refl, ◌∙◌, Bool-cases, inl, inr, All}
use cclyzerpp.Predicates.{Predicate}
use cclyzerpp.Gen.{Fact}
use cclyzerpp.Writer.Csv.{CsvWriter, write}
use cclyzerpp.Writer.{
  FactWriter, name_of, at_writer, get_writer, init_writers, new_fact_writer, write_fact_line,
  write_log,
}
use cclyzerpp.Writer.Files.{path_of, IsPlaced, get_writer-IsPlaced, outdir-get_writer}

module _ (join : Text → Text → Text) where
  at_writer-All :
      (f : CsvWriter → CsvWriter) (key outdir : Text) (ws : List (Text × CsvWriter))
      → ((w : CsvWriter) → (f w).file ≡ w.file)
      → All (λ kw. kw.1.file ≡ path_of join outdir kw.0) ws
      → All (λ kw. kw.1.file ≡ path_of join outdir kw.0) (at_writer f key ws)
  unfolding at_writer
  at_writer-All f key outdir [] keeps h = tt
  at_writer-All f key outdir ((k, w) ∷ ws) keeps (h, hs) = elim (Bool-cases (text_eq k key)) [
    | inl e ↦ rw e (keeps w ∙ h, hs)
    | inr e ↦ rw e (h, at_writer-All f key outdir ws keeps hs)
  ]

  init_writers-IsPlaced :
      (ps : List Predicate) (fw : FactWriter)
      → IsPlaced join fw
      → IsPlaced join (init_writers join ps fw)
  unfolding init_writers
  init_writers-IsPlaced [] fw h = h
  init_writers-IsPlaced (p ∷ ps) fw h =
      init_writers-IsPlaced ps (get_writer join p fw) (get_writer-IsPlaced join p fw h)

  write_log-IsPlaced :
      (facts : List Fact) (fw : FactWriter)
      → IsPlaced join fw
      → IsPlaced join (write_log join facts fw)
  unfolding write_log write_fact_line write
  write_log-IsPlaced [] fw h = h
  write_log-IsPlaced (f ∷ fs) fw h =
      at_writer-All (write f.key f.fields) (name_of f.predicate) _ _ (λ w. refl)
        (get_writer-IsPlaced join f.predicate (write_log join fs fw) (write_log-IsPlaced fs fw h))

  outdir-init_writers :
      (ps : List Predicate) (fw : FactWriter) → (init_writers join ps fw).outdir ≡ fw.outdir
  unfolding init_writers
  outdir-init_writers [] fw = refl
  outdir-init_writers (p ∷ ps) fw =
      outdir-init_writers ps (get_writer join p fw) ∙ outdir-get_writer join p fw

  outdir-write_log :
      (facts : List Fact) (fw : FactWriter) → (write_log join facts fw).outdir ≡ fw.outdir
  unfolding write_log write_fact_line
  outdir-write_log [] fw = refl
  outdir-write_log (f ∷ fs) fw =
      outdir-get_writer join f.predicate (write_log join fs fw) ∙ outdir-write_log fs fw

  pub outdir-new_fact_writer :
      (registry : List Predicate) (outdir delim : Text) (facts : List Fact)
      → (write_log join facts (new_fact_writer join registry outdir delim)).outdir ≡ outdir
  unfolding new_fact_writer
  outdir-new_fact_writer registry outdir delim facts =
      outdir-write_log facts _ ∙ outdir-init_writers registry _

  pub new_fact_writer-IsPlaced :
      (registry : List Predicate) (outdir delim : Text) (facts : List Fact)
      → IsPlaced join (write_log join facts (new_fact_writer join registry outdir delim))
  unfolding new_fact_writer
  new_fact_writer-IsPlaced registry outdir delim facts =
      write_log-IsPlaced facts _ (init_writers-IsPlaced registry _ tt)
