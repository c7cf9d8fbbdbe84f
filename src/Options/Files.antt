-- ===== src/Options/Files.antt =====
-- FactGenerator/src/Options.cpp: what holds of the disk and of the files of accepted options.
use cclyzerpp.Prelude.{
  Text, Bool, true, List, [], ◌∷◌, ◌++◌, ◌≡◌, refl, sym, ap, ◌∙◌, ◌↔◌, All, Bool-cases, inl, inr,
  if◌then◌else◌,
}
use mathlib.Core.List.{append_assoc, append-nil}
use cclyzerpp.Disk.{FileSystem}
use cclyzerpp.Options.{
  Parsed, parsed, ended, continue, ◌>>=◌, add_files, add_input, add_inputs, set_input_files,
  exit_with,
}

unfoldable pub parsed_value : {D A : Type 0} → A → Parsed D A → A
parsed_value a (parsed b d) = b
parsed_value a (ended e d) = a

unfoldable pub parsed_disk : {D A : Type 0} → D → Parsed D A → D
parsed_disk d (parsed b d') = d'
parsed_disk d (ended e d') = d'

-- The step before a result has had one.
pub continue-parsed :
    {D A B : Type 0} (f : A → D → Parsed D B) (o : Parsed D A) (e : D) (b : B)
    → continue f o ≡ parsed b e
    → (a : A) × (d : D) × (o ≡ parsed a d) × (f a d ≡ parsed b e)
continue-parsed f (parsed a d) e b h = (a, d, refl, h)
continue-parsed f (ended x d) e b h = cc

module _ (F : FileSystem) (recurse : Bool) where
  -- The paths that are no directories.
  abbrev pub regular : F.Disk → List Text → List Text
  regular disk [] = []
  regular disk (p ∷ ps) =
      let rest = regular disk ps in if F.is_directory disk p then rest else p ∷ rest

  -- The files that an input path stands for.
  abbrev pub files_of : F.Disk → Text → List Text
  files_of disk p =
      if F.is_directory disk p then regular disk (F.entries_recursive disk p) else p ∷ []

  abbrev pub files_of_all : F.Disk → List Text → List Text
  files_of_all disk [] = []
  files_of_all disk (p ∷ ps) = files_of disk p ++ files_of_all disk ps

  -- An input path exists, and is no directory or may be one.
  abbrev pub IsAcceptable : F.Disk → Text → Type 0
  IsAcceptable disk p = (F.exists disk p ≡ true) × (F.is_directory disk p ≡ true → recurse ≡ true)

  add_files-regular :
      (disk : F.Disk) (ps files : List Text) → add_files F ps files disk ≡ files ++ regular disk ps
  unfolding add_files
  add_files-regular disk [] files = sym (append-nil files)
  add_files-regular disk (p ∷ ps) files = elim (Bool-cases (F.is_directory disk p)) [
    | inl e ↦ rw e (add_files-regular disk ps files)
    | inr e ↦ rw e (add_files-regular disk ps (files ++ p ∷ []) ∙ append_assoc files (p ∷ []) _)
  ]

  add_input-files_of :
      (disk : F.Disk) (p : Text) (files : List Text)
      → IsAcceptable disk p
      → add_input F recurse p files disk ≡ parsed (files ++ files_of disk p) disk
  unfolding add_input
  add_input-files_of disk p files (e, h) = elim (Bool-cases (F.is_directory disk p)) [
    | inl d ↦ rw (e, d, h d) (ap (λ fs. parsed fs disk) (add_files-regular disk _ files))
    | inr d ↦ rw (e, d) refl
  ]

  add_input-IsAcceptable :
      (disk end : F.Disk) (p : Text) (files out : List Text)
      → add_input F recurse p files disk ≡ parsed out end
      → IsAcceptable disk p
  unfolding add_input exit_with
  add_input-IsAcceptable disk end p files out h = (found, allowed)
    where
      found : F.exists disk p ≡ true
      found = elim (Bool-cases (F.exists disk p)) [
        | inl e ↦ e
        | inr e ↦ cc (rw (e, add_input) at h)
      ]

      allowed : F.is_directory disk p ≡ true → recurse ≡ true
      allowed d = elim (Bool-cases recurse) [
        | inl r ↦ r
        | inr r ↦ cc (rw (found, d, r, add_input) at h)
      ]

  add_inputs-files_of_all :
      (disk : F.Disk) (paths files : List Text)
      → All (IsAcceptable disk) paths
      → add_inputs F recurse paths files disk ≡ parsed (files ++ files_of_all disk paths) disk
  unfolding add_inputs ◌>>=◌
  add_inputs-files_of_all disk [] files h = rw (append-nil files) refl
  add_inputs-files_of_all disk (p ∷ ps) files h = rw (add_input-files_of disk p files h.0) (
      add_inputs-files_of_all disk ps (files ++ files_of disk p) h.1
      ∙ ap (λ fs. parsed fs disk) (append_assoc files (files_of disk p) _))

  add_inputs-IsAcceptable :
      (disk end : F.Disk) (paths files out : List Text)
      → add_inputs F recurse paths files disk ≡ parsed out end
      → All (IsAcceptable disk) paths
  unfolding add_inputs ◌>>=◌
  add_inputs-IsAcceptable disk end [] files out h = tt
  add_inputs-IsAcceptable disk end (p ∷ ps) files out h =
      let (got, d, e, k) = continue-parsed _ (add_input F recurse p files disk) end out h in
      let ok = add_input-IsAcceptable disk d p files got e in
      (ok, add_inputs-IsAcceptable disk end ps _ out (rw (add_input-files_of disk p files ok) at h))

  -- The input files are accepted exactly when each path exists and is no directory, or directories
  -- are to be searched; they are then the files that the paths stand for, in their order: the path
  -- itself, or what is no directory in the directory. The disk stays as it is.
  pub set_input_files-parsed_iff :
      (disk end : F.Disk) (paths files : List Text)
      → (set_input_files F recurse paths disk ≡ parsed files end)
        ↔ (All (IsAcceptable disk) paths × (files ≡ files_of_all disk paths) × (end ≡ disk))
  unfolding set_input_files parsed_value parsed_disk
  set_input_files-parsed_iff disk end paths files = (
    λ h.
        let ok = add_inputs-IsAcceptable disk end paths [] files h in
        let same = sym h ∙ add_inputs-files_of_all disk paths [] ok in
        (ok, ap (parsed_value files) same, ap (parsed_disk end) same),
    λ (ok, e, e'). rw (e, e') (add_inputs-files_of_all disk paths [] ok),
  )
