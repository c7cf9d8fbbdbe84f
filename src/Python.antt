-- ===== src/Python.antt =====
-- FactGenerator/src/PyFactGen.cpp: `pyfactgen`, the entry for Python. A raised exception is an
-- outcome with the disk that it leaves. It declares `factgen2` with parameter types that no definition
-- has (Main.cpp has references), so the outcome of a run that calls it is the arguments of the call.
pub mod Output
use cclyzerpp.Prelude.{
  Text, text, Bool, true, false, not, Option, none, some, List, [], ◌∷◌, ◌++◌, if◌then◌else◌,
}
use cclyzerpp.Disk.{FileSystem}

-- An `IOError` with its message and the path behind it, which Boost prints quoted, or a `ValueError`.
pub data PyError : Type 0 where
  io_error : Text → Text → PyError
  value_error : Text → PyError
  filesystem_error : PyError

-- `factgen2(files, outputDir, delim)`
pub data PyOutcome (D : Type 0) : Type 0 where
  runs_factgen : List Text → Text → Text → D → PyOutcome D
  raised : PyError → D → PyOutcome D

module _ (F : FileSystem) where
  -- The first file that does not exist.
  unfoldable pub missing_file : List Text → F.Disk → Option Text
  unfolding text
  missing_file [] disk = none
  missing_file (p ∷ ps) disk =
      let rest = missing_file ps disk in if not (F.exists disk p) then some p else rest

  unfoldable pub remove_old : List Text → F.Disk → F.Disk
  remove_old [] disk = disk
  remove_old (p ∷ ps) disk = remove_old ps (F.remove_all disk p)

  -- `pyfactgen` from the test on the directory on, with the disk behind the removal.
  unfoldable pub run_if_empty : List Text → Text → Text → F.Disk → PyOutcome F.Disk
  unfolding text
  run_if_empty files output_dir delim disk =
      if not (F.is_empty disk output_dir)
      then raised (value_error (text "Output directory not empty")) disk
      else runs_factgen files output_dir delim disk

  unfoldable pub run_in_directory : List Text → Text → Text → F.Disk → PyOutcome F.Disk
  unfolding run_if_empty remove_old text
  run_in_directory files output_dir delim disk =
      if not (F.is_directory disk output_dir)
      then raised (value_error (text "Invalid output directory path")) disk
      else run_if_empty files output_dir delim (remove_old (F.entries disk output_dir) disk)

  unfoldable pub made_directory : Text → F.Disk → Option F.Disk
  made_directory output_dir disk =
      if not (F.exists disk output_dir) then F.create_directory disk output_dir else some disk

  unfoldable pub pyfactgen : List Text → Text → Text → F.Disk → PyOutcome F.Disk
  unfolding missing_file run_in_directory made_directory text
  pyfactgen files output_dir delim disk = elim (missing_file files disk) [
    | some p ↦ raised (io_error (text "No such file or directory: ") p) disk
    | none ↦ elim (made_directory output_dir disk) [
      | none ↦ raised filesystem_error disk
      | some disk' ↦ run_in_directory files output_dir delim disk'
    ]
  ]
