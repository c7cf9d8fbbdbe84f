-- ===== src/Analysis/Stored.antt =====
-- src/PointerAnalysis.cpp with FactGenerator/src/FactWriter.cpp: what the files hold on the disk that the
-- Datalog program is run on.
use cclyzerpp.Prelude.{
  ℕ, Text, text_eq, text_eq_sound, text_eq_refl, true, none, some, List, [], ◌∷◌, ◌≡◌, ◌≢◌, refl,
  sym, ap, ◌∙◌, subst, Bool-cases, Option-cases, inl, inr, Occurs, All-occurs, ◌⊎◌, Option,
}
use cclyzerpp.Disk.{FileSystem}
use cclyzerpp.Externals.{Externals}
use cclyzerpp.Predicates.{Predicate, predicates_reg}
use cclyzerpp.Gen.{State, Outcome, final}
use cclyzerpp.Wrapper.{files_behind}
use cclyzerpp.Writer.{name_of, new_fact_writer, write_log}
use cclyzerpp.Writer.Csv.{CsvWriter}
use cclyzerpp.Writer.Files.{path_of, new_fact_writer-HasFile}
use cclyzerpp.Writer.Contents.{contents_of, text_of, lines_of, contents_of-new_fact_writer}
use cclyzerpp.Writer.Unique.{find_writer-Occurs, Occurs-find_writer, new_fact_writer-IsUnique}
use cclyzerpp.Writer.Placed.{new_fact_writer-IsPlaced, outdir-new_fact_writer}
use cclyzerpp.Analysis.Pass.{Souffle, PassOptions, store_all, make_parents, store_facts}

-- A file that is stored has its contents; the other files keep theirs.
pub record IsStore (F : FileSystem) (contents : F.Disk → Text → Option Text) : Type 0 where
  pub self : (disk : F.Disk) (path t : Text) → contents (F.store disk path t) path ≡ some t
  pub others :
      (disk : F.Disk) (path t other : Text)
      → path ≢ other
      → contents (F.store disk path t) other ≡ contents disk other

module _ {Row : Type 0} (F : FileSystem) (souffle : Souffle F Row) (x : Externals)
    (join : Text → Text → Text) (fuel : ℕ) (o : PassOptions)
    (contents : F.Disk → Text → Option Text) (store : IsStore F contents) where
  -- A file is what it was, or has the contents of one of its writers.
  Holds : Text → List (Text × CsvWriter) → F.Disk → Type 0
  Holds path ws disk =
      (k : Text) × (w : CsvWriter) × Occurs (k, w) ws
      × (w.file ≡ path)
      × (contents disk path ≡ some w.contents)

  store_all_cases :
      (path : Text) (ws : List (Text × CsvWriter)) (disk : F.Disk)
      → Holds path ws (store_all F souffle x join fuel o ws disk)
        ⊎ (contents (store_all F souffle x join fuel o ws disk) path ≡ contents disk path)
  unfolding store_all Holds
  store_all_cases path [] disk = inr refl
  store_all_cases path ((k, w) ∷ ws) disk =
      elim (store_all_cases path ws (F.store disk w.file w.contents)) [
        | inl (j, v, m, at, e) ↦ inl (j, v, inr m, at, e)
        | inr kept ↦ elim (Bool-cases (text_eq w.file path)) [
          | inl same ↦
              let at = text_eq_sound w.file path same in
              inl (
                k,
                w,
                inl refl,
                at,
                kept
                    ∙ subst (λ p. contents (F.store disk w.file w.contents) p ≡ some w.contents) at
                        (store.self disk w.file w.contents),
              )
          | inr other ↦
              let apart : w.file ≢ path = λ e.
                (let same = subst (λ p. text_eq w.file p ≡ true) e (text_eq_refl w.file) in
                  cc (same, other)) in
              inr (kept ∙ store.others disk w.file w.contents path apart)
        ]
      ]

  -- The file of a writer has the contents of one of its writers.
  store_all-Holds :
      (path k : Text) (w : CsvWriter) (ws : List (Text × CsvWriter)) (disk : F.Disk)
      → Occurs (k, w) ws
      → w.file ≡ path
      → Holds path ws (store_all F souffle x join fuel o ws disk)
  unfolding store_all Holds
  store_all-Holds path k w [] disk m at = absurd m
  store_all-Holds path k w ((j, v) ∷ ws) disk (inl e) at =
      let file : v.file ≡ path = ap (λ p. p.1.file) (sym e) ∙ at in
      elim (store_all_cases path ws (F.store disk v.file v.contents)) [
        | inl (i, u, m, at', c) ↦ inl-Holds i u m at' c
        | inr kept ↦ (
          j,
          v,
          inl refl,
          file,
          kept
              ∙ subst (λ p. contents (F.store disk v.file v.contents) p ≡ some v.contents) file
                  (store.self disk v.file v.contents),
        )
      ]
    where
      inl-Holds :
          (i : Text) (u : CsvWriter)
          → Occurs (i, u) ws
          → u.file ≡ path
          → contents (store_all F souffle x join fuel o ws (F.store disk v.file v.contents)) path
            ≡ some u.contents
          → Holds path
              ((j, v) ∷ ws)
              (store_all F souffle x join fuel o ws (F.store disk v.file v.contents))
      inl-Holds i u m at' c = (i, u, inr m, at', c)
  store_all-Holds path k w ((j, v) ∷ ws) disk (inr m) at =
      let (i, u, m', at', c) = store_all-Holds path k w ws (F.store disk v.file v.contents) m at in
      (i, u, inr m', at', c)

  -- The predicate's file holds the lines of the facts of the name that has this file.
  abbrev pub HoldsLines : State → F.Disk → Predicate → Type 0
  HoldsLines s disk p =
      (key : Text) × (path_of join o.datalog_debug_dir key
        ≡ path_of join o.datalog_debug_dir (name_of p))
      × (contents disk (path_of join o.datalog_debug_dir (name_of p))
          ≡ some (lines_of (9 ∷ []) key s.log))

  -- So do the files of all predicates.
  abbrev pub HoldsFacts : State → F.Disk → Type 0
  HoldsFacts s disk = (p : Predicate) → Occurs p predicates_reg → HoldsLines s disk p

  stored-HoldsLines :
      (s : State) (disk : F.Disk) (p : Predicate)
      → Occurs p predicates_reg
      → HoldsLines s
          (store_all F souffle x join fuel o
            (write_log join s.log
              (new_fact_writer join predicates_reg o.datalog_debug_dir (9 ∷ []))).writers
            disk)
          p
  unfolding contents_of Holds
  stored-HoldsLines s disk p m =
      let dir = o.datalog_debug_dir in
      let fw = write_log join s.log (new_fact_writer join predicates_reg dir (9 ∷ [])) in
      let out : fw.outdir ≡ dir = outdir-new_fact_writer join predicates_reg dir (9 ∷ []) s.log in
      let (w, found, at) = new_fact_writer-HasFile join predicates_reg dir (9 ∷ []) s.log p m in
      let at_dir : w.file ≡ path_of join dir (name_of p) =
        subst (λ d. w.file ≡ path_of join d (name_of p)) out at in
      let (key, v, there, at', holds) =
        store_all-Holds (path_of join dir (name_of p)) (name_of p) w fw.writers disk
          (Occurs-find_writer (name_of p) w fw.writers found) at_dir in
      let placed : v.file ≡ path_of join fw.outdir key =
        All-occurs (λ kw. kw.1.file ≡ path_of join fw.outdir kw.0) (key, v) fw.writers
          (new_fact_writer-IsPlaced join predicates_reg dir (9 ∷ []) s.log) there in
      let lines : v.contents ≡ lines_of (9 ∷ []) key s.log =
        ap text_of (
          sym (
            find_writer-Occurs key v fw.writers
              (new_fact_writer-IsUnique join predicates_reg dir (9 ∷ []) s.log) there))
        ∙ contents_of-new_fact_writer join predicates_reg dir (9 ∷ []) key s.log in
      (key, sym (subst (λ d. v.file ≡ path_of join d key) out placed) ∙ at', holds ∙ ap some lines)

  pub store_facts-HoldsLines :
      {A : Type 0} (out : Outcome A) (disk disk' : F.Disk)
      → store_facts F souffle x join fuel o (files_behind join o.datalog_debug_dir out) disk
        ≡ some disk'
      → HoldsFacts (final out) disk'
  unfolding store_facts files_behind
  store_facts-HoldsLines out disk disk' e =
      elim (Option-cases (
        make_parents F souffle x join fuel o (files_behind join o.datalog_debug_dir out).opened
          disk)) [
            | inl h ↦ cc (rw (h, store_facts) at e)
            | inr (made, h) ↦
                let stored =
                  ap (λ d. elim d [ none ↦ disk | some c ↦ c ]) (rw (h, store_facts) at e) in
                λ p m.
                  subst (λ d. HoldsLines (final out) d p) stored
                    (stored-HoldsLines (final out) made p m)
          ]
