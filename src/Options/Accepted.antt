-- ===== src/Options/Accepted.antt =====
-- FactGenerator/src/Options.cpp: what the constructor has checked when it accepts a command line, and
-- what it does to the disk.
use cclyzerpp.Prelude.{
  Text, text, text_eq, text_eq_sound, Bool, true, false, Option, none, some, ◌≡◌, refl, sym, ap,
  ◌∙◌, subst, ◌⊎◌, inl, inr, All, Bool-cases, Option-cases, if◌then◌else◌,
}
use cclyzerpp.Disk.{FileSystem}
use cclyzerpp.Options.{
  CommandLine, Options, parsed, ◌>>=◌, set_input_files, exit_with, create_if_missing,
  require_directory, remove_entries, clear_if, require_empty, set_output_dir, set_signatures,
  signatures_unless_sentinel, new_options,
}
use cclyzerpp.Options.Files.{
  continue-parsed, parsed_value, parsed_disk, IsAcceptable, files_of_all,
  set_input_files-parsed_iff,
}

module _ (F : FileSystem) where
  -- The disk with the directory, which is made if the path does not exist.
  abbrev pub IsMade : Text → F.Disk → F.Disk → Type 0
  IsMade path disk made =
      ((F.exists disk path ≡ true) × (made ≡ disk))
      ⊎ ((F.exists disk path ≡ false) × (F.create_directory disk path ≡ some made))

  abbrev pub cleared : Bool → Text → F.Disk → F.Disk
  cleared force path disk = if force then remove_entries F (F.entries disk path) disk else disk

  -- The output directory: a directory, made if it was missing and cleared if asked for, and empty
  -- then.
  abbrev pub IsOutput : Text → Bool → F.Disk → F.Disk → Type 0
  IsOutput path force disk end =
      (made : F.Disk) × IsMade path disk made
      × (F.is_directory made path ≡ true)
      × (end ≡ cleared force path made)
      × (F.is_empty end path ≡ true)

  create_if_missing-IsMade :
      (path : Text) (disk made : F.Disk)
      → create_if_missing F path disk ≡ parsed tt made
      → IsMade path disk made
  unfolding create_if_missing parsed_disk
  create_if_missing-IsMade path disk made h = elim (Bool-cases (F.exists disk path)) [
    | inl e ↦ inl (e, sym (ap (parsed_disk disk) (rw (e, create_if_missing) at h)))
    | inr e ↦ elim (Option-cases (F.create_directory disk path)) [
      | inl n ↦ cc (rw (e, n, create_if_missing) at h)
      | inr (d, s) ↦
          inr (e, s ∙ ap some (ap (parsed_disk disk) (rw (e, s, create_if_missing) at h)))
    ]
  ]

  require_directory-parsed :
      (path : Text) (disk end : F.Disk)
      → require_directory F path disk ≡ parsed tt end
      → (F.is_directory disk path ≡ true) × (end ≡ disk)
  unfolding require_directory exit_with parsed_disk
  require_directory-parsed path disk end h = elim (Bool-cases (F.is_directory disk path)) [
    | inl e ↦ (e, sym (ap (parsed_disk disk) (rw (e, require_directory) at h)))
    | inr e ↦ cc (rw (e, require_directory) at h)
  ]

  require_empty-parsed :
      (path : Text) (disk end : F.Disk)
      → require_empty F path disk ≡ parsed tt end
      → (F.is_empty disk path ≡ true) × (end ≡ disk)
  unfolding require_empty exit_with parsed_disk
  require_empty-parsed path disk end h = elim (Bool-cases (F.is_empty disk path)) [
    | inl e ↦ (e, sym (ap (parsed_disk disk) (rw (e, require_empty) at h)))
    | inr e ↦ cc (rw (e, require_empty) at h)
  ]

  clear_if-cleared :
      (force : Bool) (path : Text) (disk : F.Disk)
      → clear_if F force path disk ≡ parsed tt (cleared force path disk)
  unfolding clear_if
  clear_if-cleared true path disk = refl
  clear_if-cleared false path disk = refl

  set_output_dir-IsOutput :
      (path out : Text) (force : Bool) (disk end : F.Disk)
      → set_output_dir F path force disk ≡ parsed out end
      → (out ≡ path) × IsOutput path force disk end
  unfolding set_output_dir ◌>>=◌ parsed_value parsed_disk
  set_output_dir-IsOutput path out force disk end h =
      let (u, made, m, h1) = continue-parsed _ (create_if_missing F path disk) end out h in
      let (u2, d2, r, h2) = continue-parsed _ (require_directory F path made) end out h1 in
      let (u3, d3, c, h3) = continue-parsed _ (clear_if F force path d2) end out h2 in
      let (u4, d4, q, h4) = continue-parsed _ (require_empty F path d3) end out h3 in
      let (is_dir, same) = require_directory-parsed path made d2 r in
      let (empty, same') = require_empty-parsed path d3 d4 q in
      let clear = ap (parsed_disk d3) (sym c ∙ clear_if-cleared force path d2) in
      let last = sym (ap (parsed_disk d4) h4) ∙ same' in
      (
        sym (ap (parsed_value path) h4),
        (
          made,
          create_if_missing-IsMade path disk made m,
          is_dir,
          last ∙ clear ∙ ap (cleared force path) same,
          rw last empty,
        ),
      )

  -- The signatures of accepted options are the file of the option, which exists.
  abbrev pub AreSignatures : Text → F.Disk → Option Text → Type 0
  AreSignatures path disk s =
      ((path ≡ text "SENTINEL") × (s ≡ none)) ⊎ ((F.exists disk path ≡ true) × (s ≡ some path))

  set_signatures-parsed :
      (path : Text) (disk end : F.Disk) (s : Option Text)
      → set_signatures F path disk ≡ parsed s end
      → (F.exists disk path ≡ true) × (s ≡ some path) × (end ≡ disk)
  unfolding set_signatures exit_with parsed_disk parsed_value
  set_signatures-parsed path disk end s h = elim (Bool-cases (F.exists disk path)) [
    | inl e ↦
        let h' = (rw (e, set_signatures) at h) in
        (e, sym (ap (parsed_value s) h'), sym (ap (parsed_disk disk) h'))
    | inr e ↦ cc (rw (e, set_signatures) at h)
  ]

  signatures_unless_sentinel-AreSignatures :
      (path : Text) (disk end : F.Disk) (s : Option Text)
      → signatures_unless_sentinel F path disk ≡ parsed s end
      → AreSignatures path disk s × (end ≡ disk)
  unfolding signatures_unless_sentinel parsed_disk parsed_value
  signatures_unless_sentinel-AreSignatures path disk end s h =
      elim (Bool-cases (text_eq path (text "SENTINEL"))) [
        | inl e ↦
            let h' = (rw (e, signatures_unless_sentinel) at h) in
            (
              inl (text_eq_sound path (text "SENTINEL") e, sym (ap (parsed_value s) h')),
              sym (ap (parsed_disk disk) h'),
            )
        | inr e ↦
            let (found, is, same) =
              set_signatures-parsed path disk end s (rw (e, signatures_unless_sentinel) at h) in
            (inr (found, is), same)
      ]

  -- When the constructor accepts a command line, the output directory is a directory that has been
  -- made if the path did not exist and cleared if asked for, and it is empty; each input path exists,
  -- and is a directory only with `-r`; the input files are the files that the paths stand for, in
  -- their order; and the signatures are the given file, which exists, unless it is the sentinel.
  pub new_options-accepted :
      (c : CommandLine) (o : Options) (disk end : F.Disk)
      → new_options F c disk ≡ parsed o end
      → (o.outdir ≡ c.outdir)
        × IsOutput c.outdir c.force disk end
        × All (IsAcceptable F c.recursive end) c.input_files
        × (o.input_files ≡ files_of_all F c.recursive end c.input_files)
        × AreSignatures c.signatures end o.signatures
  unfolding new_options ◌>>=◌ parsed_value parsed_disk
  new_options-accepted c o disk end h =
      let (out, d1, h1, k1) = continue-parsed _ (set_output_dir F c.outdir c.force disk) end o h in
      let (files, d2, h2, k2) =
        continue-parsed _ (set_input_files F c.recursive c.input_files d1) end o k1 in
      let (s, d3, h3, k3) =
        continue-parsed _ (signatures_unless_sentinel F c.signatures d2) end o k2 in
      let (is_out, output) = set_output_dir-IsOutput c.outdir out c.force disk d1 h1 in
      let (fine, are, same) =
        (set_input_files-parsed_iff F c.recursive d1 d2 c.input_files files).0 h2 in
      let (signs, same') = signatures_unless_sentinel-AreSignatures c.signatures d2 d3 s h3 in
      let last : end ≡ d1 = sym (ap (parsed_disk d1) k3) ∙ same' ∙ same in
      let made = sym (ap (parsed_value o) k3) in
      (
        ap (λ q. q.outdir) made ∙ is_out,
        rw last output,
        rw last fine,
        ap (λ q. q.input_files) made ∙ rw last are,
        subst (AreSignatures c.signatures end) (ap (λ q. q.signatures) (sym made))
            (subst (λ d. AreSignatures c.signatures d s) (same ∙ sym last) signs),
      )
