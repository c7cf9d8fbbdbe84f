-- ===== src/Analysis/Pass.antt =====
-- src/PointerAnalysis.cpp: `LegacyPointerAnalysis::runOnModule`, with `create` and
-- `runPointerAnalysis` of src/PAInterface.cpp. The number of threads is not modelled. The facts
-- written before a stop are taken to be in their files (an `exit` may leave some in buffers).
use cclyzerpp.Prelude.{
  ℕ, Text, Bool, true, false, Option, none, some, List, [], ◌∷◌, if◌then◌else◌, length,
}
use cclyzerpp.Gen.{Outcome, done, stopped}
use cclyzerpp.Disk.{FileSystem}
use cclyzerpp.Externals.{Externals}
use cclyzerpp.Signatures.{Document}
use cclyzerpp.Sensitivity.{ContextSensitivity, context_sensitivity_to_string}
use cclyzerpp.Driver.{ParsedModule}
use cclyzerpp.Writer.{FactWriter}
use cclyzerpp.Writer.Csv.{CsvWriter}
use cclyzerpp.Wrapper.{factgen_module, new_generator, files_behind}
use cclyzerpp.Analysis.Assertions.{check_assertions}
use cclyzerpp.Analysis.Relations.{Variant, debug, subset, unification, interface_name}
use cclyzerpp.Analysis.Rows.{
  Checked, answer, failed, null_pointer, logic_error, generator, filesystem_error, ◌>>=◌, Reader,
}
use cclyzerpp.Analysis.Results.{PointerAnalysisAaResult, read_results}

-- The Souffle library and the program that it makes of the Datalog code: `run` is `loadAll` on the
-- files of a directory followed by `run`, and `print_all` writes the relations there.
pub record Souffle (F : FileSystem) (Row : Type 0) : Type 0 where
  pub reader : Reader Row
  pub has_program : Text → Bool
  pub run : Text → F.Disk → Text → Text → Option (List Row)
  pub print_all : F.Disk → Text → (Text → Option (List Row)) → F.Disk

-- The command line options of the pass.
pub record PassOptions : Type 0 where
  pub which : Variant
  pub datalog_debug : Bool
  pub datalog_debug_dir : Text
  pub check : Bool
  pub signatures : Option (Text × Document)
  pub sensitivity : ContextSensitivity

unfoldable pub is_debug : Variant → Bool
is_debug debug = true
is_debug subset = false
is_debug unification = false

-- `getRelation(name)->size()`
unfoldable pub relation_size : {Row : Type 0} → Option (List Row) → Option ℕ
relation_size none = none
relation_size (some rows) = some (length rows)

unfoldable pub assertion_failure : Option Text → Checked (Unit {0})
assertion_failure none = answer tt
assertion_failure (some e) = failed (logic_error e)

unfoldable pub assertions_of : PassOptions → (Text → Option ℕ) → Checked (Unit {0})
unfolding assertion_failure check_assertions is_debug
assertions_of o size =
    if o.check then assertion_failure (check_assertions size (is_debug o.which)) else answer tt

module _ {Row : Type 0} (F : FileSystem) (souffle : Souffle F Row) (x : Externals)
    (join : Text → Text → Text) (fuel : ℕ) (o : PassOptions) where
  -- The files of the fact writer, closed when the writer is destroyed.
  unfoldable pub store_all : List (Text × CsvWriter) → F.Disk → F.Disk
  store_all [] disk = disk
  store_all ((_, w) ∷ ws) disk = store_all ws (F.store disk w.file w.contents)

  -- The directories that `getWriter` makes, for the oldest file first.
  unfoldable pub make_parents : List Text → F.Disk → Option F.Disk
  make_parents [] disk = some disk
  make_parents (file ∷ files) disk = elim (make_parents files disk) [
    | none ↦ none
    | some disk' ↦ F.create_parent_directory disk' file
  ]

  -- What the fact writer does to the disk, from its constructor to its destructor.
  unfoldable pub store_facts : FactWriter → F.Disk → Option F.Disk
  unfolding store_all make_parents
  store_facts fw disk = elim (make_parents fw.opened disk) [
    | none ↦ none
    | some disk' ↦ some (store_all fw.writers disk')
  ]

  unfoldable pub make_directory : F.Disk → Option F.Disk
  make_directory disk =
      if F.exists disk o.datalog_debug_dir
      then some disk
      else F.create_directories disk o.datalog_debug_dir

  unfoldable pub remove_unless : Bool → F.Disk → F.Disk
  remove_unless true disk = disk
  remove_unless false disk = F.remove_all disk o.datalog_debug_dir

  -- A failure leaves the directory as it is.
  unfoldable pub finish :
      F.Disk → Checked PointerAnalysisAaResult → Checked PointerAnalysisAaResult × F.Disk
  unfolding remove_unless
  finish disk (answer r) = (answer r, remove_unless o.datalog_debug disk)
  finish disk (failed e) = (failed e, disk)

  unfoldable pub analyse : List (Text × ℕ) → F.Disk → Checked PointerAnalysisAaResult × F.Disk
  unfolding relation_size assertions_of read_results ◌>>=◌ finish interface_name
  analyse llvm_val_map disk =
      let relations = souffle.run (interface_name o.which) disk o.datalog_debug_dir in
      let disk' =
        if o.datalog_debug then souffle.print_all disk o.datalog_debug_dir relations else disk in
      if souffle.has_program (interface_name o.which)
      then finish disk' (
          assertions_of o (λ n. relation_size (relations n)) >>= λ _.
          read_results souffle.reader relations llvm_val_map o.which)
      else (failed null_pointer, disk)

  unfoldable pub analyse_outcome :
      F.Disk → Outcome (List (Text × ℕ)) → Checked PointerAnalysisAaResult × F.Disk
  unfolding analyse
  analyse_outcome disk (done llvm_val_map s) = analyse llvm_val_map disk
  analyse_outcome disk (stopped e s) = (failed (generator e), disk)

  -- Where the writer cannot be made the generator does not run.
  unfoldable pub analyse_facts :
      F.Disk → Outcome (List (Text × ℕ)) → Checked PointerAnalysisAaResult × F.Disk
  unfolding store_facts files_behind analyse_outcome
  analyse_facts disk out = elim (store_facts (files_behind join o.datalog_debug_dir out) disk) [
    | none ↦ (failed filesystem_error, disk)
    | some disk' ↦ analyse_outcome disk' out
  ]

  -- `runOnModule`: the result that it keeps, and the disk.
  unfoldable pub run_on_module :
      ParsedModule → Text → F.Disk → Checked PointerAnalysisAaResult × F.Disk
  unfolding make_directory analyse_facts factgen_module context_sensitivity_to_string
  run_on_module m real_path disk = elim (make_directory disk) [
    | none ↦ (failed filesystem_error, disk)
    | some disk' ↦ analyse_facts disk' (
        factgen_module x fuel m real_path o.signatures (context_sensitivity_to_string o.sensitivity)
          new_generator)
  ]
