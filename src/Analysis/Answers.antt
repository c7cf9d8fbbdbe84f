-- ===== src/Analysis/Answers.antt =====
-- src/PointerAnalysis.cpp, `runOnModule`: what holds when the pass keeps a result.
use cclyzerpp.Prelude.{
  ℕ, Text, true, Option, none, some, List, ◌≡◌, refl, sym, ◌∙◌, All, Bool-cases, Option-cases, inl,
  inr,
}
use cclyzerpp.Gen.{State, Outcome, done, stopped, final}
use cclyzerpp.Disk.{FileSystem}
use cclyzerpp.Externals.{Externals}
use cclyzerpp.Sensitivity.{context_sensitivity_to_string}
use cclyzerpp.Driver.{ParsedModule}
use cclyzerpp.Wrapper.{factgen_module, new_generator, files_behind}
use cclyzerpp.Analysis.Assertions.{
  assertion_relations, check_assertions, Holds, check_assertions-none_iff,
}
use cclyzerpp.Analysis.Stored.{IsStore, HoldsFacts, store_facts-HoldsLines}
use cclyzerpp.Analysis.Relations.{interface_name}
use cclyzerpp.Analysis.Rows.{Checked, answer, failed, ◌>>=◌}
use cclyzerpp.Analysis.Results.{PointerAnalysisAaResult, read_results}
use cclyzerpp.Analysis.Pass.{
  Souffle, PassOptions, is_debug, assertion_failure, assertions_of, make_directory, finish,
  relation_size, analyse, analyse_facts, analyse_outcome, store_facts, run_on_module,
}

-- The assertions of the Datalog code hold, if the pass is asked to check them.
abbrev pub AssertionsHold : {Row : Type 0} → PassOptions → (Text → Option (List Row)) → Type 0
AssertionsHold o relations =
    o.check ≡ true
    → All
        (λ n.
          Holds (λ m. relation_size (relations m)) (is_debug o.which) (relation_size (relations n)))
        assertion_relations

check_assertions-AssertionsHold :
    {Row : Type 0} (o : PassOptions) (relations : Text → Option (List Row)) (found : Option Text)
    → check_assertions (λ n. relation_size (relations n)) (is_debug o.which) ≡ found
    → assertion_failure found ≡ answer tt
    → AssertionsHold o relations
unfolding assertion_failure
check_assertions-AssertionsHold o relations none e h c =
    (check_assertions-none_iff (λ n. relation_size (relations n)) (is_debug o.which)).0 e
check_assertions-AssertionsHold o relations (some t) e h c = cc

assertions_of-AssertionsHold :
    {Row : Type 0} (o : PassOptions) (relations : Text → Option (List Row))
    → assertions_of o (λ n. relation_size (relations n)) ≡ answer tt
    → AssertionsHold o relations
unfolding assertions_of
assertions_of-AssertionsHold o relations h c =
    check_assertions-AssertionsHold o relations _ refl (rw c at h) c

-- The computations before an answer have answered.
run-answer :
    {A B : Type 0} (m : Checked A) (f : A → Checked B) (b : B)
    → m >>= f ≡ answer b
    → (a : A) × (m ≡ answer a) × (f a ≡ answer b)
unfolding ◌>>=◌
run-answer (answer a) f b h = (a, refl, h)
run-answer (failed e) f b h = cc

module _ {Row : Type 0} (F : FileSystem) (souffle : Souffle F Row) (x : Externals)
    (join : Text → Text → Text) (fuel : ℕ) (o : PassOptions) where
  -- The relations that the Datalog program makes of a directory of facts.
  abbrev pub relations_of : F.Disk → Text → Option (List Row)
  relations_of disk = souffle.run (interface_name o.which) disk o.datalog_debug_dir

  -- The result is read from relations in which the assertions hold.
  abbrev pub IsAnalysed : List (Text × ℕ) → F.Disk → PointerAnalysisAaResult → Type 0
  IsAnalysed llvm_val_map disk r =
      (read_results souffle.reader (relations_of disk) llvm_val_map o.which ≡ answer r)
      × AssertionsHold o (relations_of disk)

  finish_result :
      (disk : F.Disk) (c : Checked PointerAnalysisAaResult)
      → (finish F souffle x join fuel o disk c).0 ≡ c
  unfolding finish
  finish_result disk (answer r) = refl
  finish_result disk (failed e) = refl

  analyse-IsAnalysed :
      (llvm_val_map : List (Text × ℕ)) (disk : F.Disk) (r : PointerAnalysisAaResult)
      → (analyse F souffle x join fuel o llvm_val_map disk).0 ≡ answer r
      → IsAnalysed llvm_val_map disk r
  unfolding analyse
  analyse-IsAnalysed llvm_val_map disk r h =
      elim (Bool-cases (souffle.has_program (interface_name o.which))) [
        | inl e ↦
            let (u, a, b) = run-answer _ _ r (sym (finish_result _ _) ∙ (rw e at h)) in
            (b, assertions_of-AssertionsHold o (relations_of disk) a)
        | inr e ↦ cc (rw e at h)
      ]

  module _ (contents : F.Disk → Text → Option Text) (store : IsStore F contents) where
    -- Facts were generated, stored and analysed.
    abbrev pub IsAnswered : Outcome (List (Text × ℕ)) → PointerAnalysisAaResult → Type 0
    IsAnswered out r =
        (llvm_val_map : List (Text × ℕ)) × (s : State) × (disk : F.Disk) × (out
          ≡ done llvm_val_map s)
        × HoldsFacts F souffle x join fuel o contents store s disk
        × IsAnalysed llvm_val_map disk r

    analyse_outcome-IsAnswered :
        (disk : F.Disk) (out : Outcome (List (Text × ℕ))) (r : PointerAnalysisAaResult)
        → HoldsFacts F souffle x join fuel o contents store (final out) disk
        → (analyse_outcome F souffle x join fuel o disk out).0 ≡ answer r
        → IsAnswered out r
    unfolding analyse_outcome
    analyse_outcome-IsAnswered disk (done llvm_val_map s) r held h =
        (llvm_val_map, s, disk, refl, held, analyse-IsAnalysed llvm_val_map disk r h)
    analyse_outcome-IsAnswered disk (stopped e s) r held h = cc

    analyse_facts-IsAnswered :
        (disk : F.Disk) (out : Outcome (List (Text × ℕ))) (r : PointerAnalysisAaResult)
        → (analyse_facts F souffle x join fuel o disk out).0 ≡ answer r
        → IsAnswered out r
    unfolding analyse_facts
    analyse_facts-IsAnswered disk out r h =
        elim (Option-cases
          (store_facts F souffle x join fuel o (files_behind join o.datalog_debug_dir out) disk)) [
            | inl e ↦ cc (rw (e, analyse_facts) at h)
            | inr (disk', e) ↦
                analyse_outcome-IsAnswered disk' out r
                  (store_facts-HoldsLines F souffle x join fuel o contents store out disk disk' e)
                  (rw (e, analyse_facts) at h)
          ]

    -- When the pass keeps a result, the fact generator has returned its map of values; the Datalog
    -- program is run on a disk on which the file of each predicate of the registry holds the lines of
    -- the facts of the predicates whose name has that file, in their order; the assertions hold in the
    -- relations that the program makes (if they are to be checked); and the result is read from these
    -- relations with that map. This is so if a file that is stored has its contents and the other
    -- files keep theirs.
    pub run_on_module-IsAnswered :
        (m : ParsedModule) (real_path : Text) (disk : F.Disk) (r : PointerAnalysisAaResult)
        → (run_on_module F souffle x join fuel o m real_path disk).0 ≡ answer r
        → IsAnswered
            (factgen_module x fuel m real_path o.signatures
              (context_sensitivity_to_string o.sensitivity)
              new_generator)
            r
    unfolding run_on_module
    run_on_module-IsAnswered m real_path disk r h =
        elim (Option-cases (make_directory F souffle x join fuel o disk)) [
          | inl e ↦ cc (rw (e, run_on_module) at h)
          | inr (disk', e) ↦ analyse_facts-IsAnswered disk' _ r (rw (e, run_on_module) at h)
        ]
