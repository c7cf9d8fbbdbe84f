-- ===== src/Python/Output.antt =====
-- FactGenerator/src/PyFactGen.cpp against Options.cpp: the two front ends of the fact generator.
use cclyzerpp.Prelude.{
  Text, true, Option, none, some, List, [], ◌∷◌, ◌≡◌, refl, sym, ap, ◌∙◌, ◌↔◌, All, Bool-cases,
  Option-cases, inl, inr,
}
use cclyzerpp.Disk.{FileSystem}
use cclyzerpp.Options.{
  Parsed, parsed, ended, ◌>>=◌, exit_with, create_if_missing, require_directory, remove_entries,
  clear_if, require_empty, set_output_dir,
}
use cclyzerpp.Python.{
  PyOutcome, runs_factgen, raised, missing_file, remove_old, run_if_empty, run_in_directory,
  made_directory, pyfactgen,
}

module _ (F : FileSystem) where
  missing_file-none_iff :
      (files : List Text) (disk : F.Disk)
      → (missing_file F files disk ≡ none) ↔ All (λ p. F.exists disk p ≡ true) files
  unfolding missing_file
  missing_file-none_iff [] disk = (λ h. tt, λ h. refl)
  missing_file-none_iff (p ∷ ps) disk =
      let ih = missing_file-none_iff ps disk in
      elim (Bool-cases (F.exists disk p)) [
        | inl e ↦ rw e (λ h. (refl, ih.0 h), λ h. ih.1 h.1)
        | inr e ↦ rw e (λ h. cc, λ h. cc)
      ]

  remove_old-remove_entries :
      (ps : List Text) (disk : F.Disk) → remove_old F ps disk ≡ remove_entries F ps disk
  unfolding remove_old remove_entries
  remove_old-remove_entries [] disk = refl
  remove_old-remove_entries (p ∷ ps) disk = remove_old-remove_entries ps (F.remove_all disk p)

  -- The disk on which the generator is run, if it is.
  abbrev pub ran : PyOutcome F.Disk → Option F.Disk
  ran (runs_factgen files out delim disk) = some disk
  ran (raised e disk) = none

  abbrev pub accepted : {A : Type 0} → Parsed F.Disk A → Option F.Disk
  accepted (parsed a disk) = some disk
  accepted (ended e disk) = none

  run_in_directory-set_output_dir :
      (files : List Text) (out delim : Text) (disk disk' : F.Disk)
      → create_if_missing F out disk ≡ parsed tt disk'
      → ran (run_in_directory F files out delim disk') ≡ accepted (set_output_dir F out true disk)
  unfolding run_in_directory run_if_empty set_output_dir require_directory clear_if require_empty
      exit_with ◌>>=◌
  run_in_directory-set_output_dir files out delim disk disk' made =
      let same = remove_old-remove_entries (F.entries disk' out) disk' in
      elim (Bool-cases (F.is_directory disk' out)) [
        | inr d ↦ rw (made, d) refl
        | inl d ↦
            elim (Bool-cases (F.is_empty (remove_entries F (F.entries disk' out) disk') out)) [
              | inl e ↦ rw (made, d, same, e) refl
              | inr e ↦ rw (made, d, same, e) refl
            ]
      ]

  made_directory-create :
      (out : Text) (disk disk' : F.Disk)
      → made_directory F out disk ≡ some disk'
      → create_if_missing F out disk ≡ parsed tt disk'
  unfolding made_directory create_if_missing
  made_directory-create out disk disk' h = elim (Bool-cases (F.exists disk out)) [
    | inl e ↦ rw e (ap (from_made disk) (rw (made_directory, e) at h))
    | inr e ↦ elim (Option-cases (F.create_directory disk out)) [
      | inl n ↦ cc (rw (made_directory, e, n) at h)
      | inr (d, s) ↦ rw (e, s) (ap (from_made disk) (rw (made_directory, e, s) at h))
    ]
  ]
    where
      from_made : F.Disk → Option F.Disk → Parsed F.Disk (Unit {0})
      from_made d none = parsed tt d
      from_made d (some e) = parsed tt e

  made_directory-missing :
      (out : Text) (disk : F.Disk)
      → made_directory F out disk ≡ none
      → accepted (set_output_dir F out true disk) ≡ none
  unfolding made_directory create_if_missing set_output_dir ◌>>=◌
  made_directory-missing out disk h = elim (Bool-cases (F.exists disk out)) [
    | inl e ↦ cc (rw (made_directory, e) at h)
    | inr e ↦ elim (Option-cases (F.create_directory disk out)) [
      | inl n ↦ rw (e, n) refl
      | inr (d, s) ↦ cc (rw (made_directory, e, s) at h)
    ]
  ]

  output-set_output_dir :
      (files : List Text) (out delim : Text) (disk : F.Disk)
      → missing_file F files disk ≡ none
      → ran (pyfactgen F files out delim disk) ≡ accepted (set_output_dir F out true disk)
  unfolding pyfactgen
  output-set_output_dir files out delim disk found =
      elim (Option-cases (made_directory F out disk)) [
        | inl n ↦ rw (pyfactgen, found, n) (sym (made_directory-missing out disk n))
        | inr (disk', s) ↦
            rw (pyfactgen, found, s)
              (run_in_directory-set_output_dir files out delim disk disk'
                (made_directory-create out disk disk' s))
      ]

  missing-ran :
      (files : List Text) (out delim message : Text) (disk : F.Disk)
      → missing_file F files disk ≡ some message
      → ran (pyfactgen F files out delim disk) ≡ none
  unfolding pyfactgen
  missing-ran files out delim message disk found = rw (pyfactgen, found) refl

  -- The Python entry runs the fact generator exactly when every input file exists and the command
  -- line tool, given `-f`, would accept the output directory; and then on the same disk.
  pub pyfactgen-set_output_dir :
      (files : List Text) (out delim : Text) (disk end : F.Disk)
      → (ran (pyfactgen F files out delim disk) ≡ some end) ↔ (
          All (λ p. F.exists disk p ≡ true) files
          × (accepted (set_output_dir F out true disk) ≡ some end))
  pyfactgen-set_output_dir files out delim disk end =
      elim (Option-cases (missing_file F files disk)) [
        | inl found ↦
            let same = output-set_output_dir files out delim disk found in
            (λ h. ((missing_file-none_iff files disk).0 found, sym same ∙ h), λ (h, k). same ∙ k)
        | inr (message, found) ↦ (
          λ h. cc (missing-ran files out delim message disk found, h),
          λ (h, k). cc (found, (missing_file-none_iff files disk).1 h),
        )
      ]
