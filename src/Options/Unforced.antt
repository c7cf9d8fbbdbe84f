-- ===== src/Options/Unforced.antt =====
-- FactGenerator/src/Options.cpp: without `-f`, nothing is removed.
use cclyzerpp.Prelude.{
  Text, text, text_eq, Bool, true, false, List, [], ◌∷◌, ◌≡◌, refl, sym, subst, inl, inr,
  Bool-cases,
}
use cclyzerpp.Disk.{FileSystem}
use cclyzerpp.Options.{
  CommandLine, Parsed, parsed, ended, continue, ◌>>=◌, add_input, add_inputs, set_input_files,
  exit_with, create_if_missing, require_directory, clear_if, require_empty, set_output_dir,
  set_signatures, signatures_unless_sentinel, new_options,
}
use cclyzerpp.Options.Files.{parsed_disk}

-- The disk is as it was, whatever the outcome.
record Keeps {D A : Type 0} (d : D) (o : Parsed D A) : Type 0 where
  kept : parsed_disk d o ≡ d

continue-Keeps :
    {D A B : Type 0} (f : A → D → Parsed D B) (o : Parsed D A) (d : D)
    → Keeps d o
    → ((a : A) → Keeps d (f a d))
    → Keeps d (continue f o)
unfolding parsed_disk
continue-Keeps f (parsed a e) d h k = subst (λ e. Keeps d (f a e)) (sym h.kept) (k a)
continue-Keeps f (ended x e) d h k = record { kept = h.kept }

module _ (F : FileSystem) where
  add_input-Keeps :
      (recurse : Bool) (p : Text) (files : List Text) (disk : F.Disk)
      → Keeps disk (add_input F recurse p files disk)
  unfolding add_input exit_with parsed_disk
  add_input-Keeps recurse p files disk = elim (Bool-cases (F.exists disk p)) [
    | inr e ↦ rw e (record { kept = refl })
    | inl e ↦ elim (Bool-cases (F.is_directory disk p)) [
      | inr d ↦ rw (e, d) (record { kept = refl })
      | inl d ↦ elim (Bool-cases recurse) [
        | inl r ↦ rw (e, d, r) (record { kept = refl })
        | inr r ↦ rw (e, d, r) (record { kept = refl })
      ]
    ]
  ]

  add_inputs-Keeps :
      (recurse : Bool) (ps files : List Text) (disk : F.Disk)
      → Keeps disk (add_inputs F recurse ps files disk)
  unfolding add_inputs ◌>>=◌ parsed_disk
  add_inputs-Keeps recurse [] files disk = record { kept = refl }
  add_inputs-Keeps recurse (p ∷ ps) files disk =
      continue-Keeps _ _ disk (add_input-Keeps recurse p files disk)
        (λ fs. add_inputs-Keeps recurse ps fs disk)

  create_if_missing-Keeps :
      (path : Text) (disk : F.Disk)
      → F.exists disk path ≡ true
      → Keeps disk (create_if_missing F path disk)
  unfolding create_if_missing parsed_disk
  create_if_missing-Keeps path disk e = rw e (record { kept = refl })

  require_directory-Keeps :
      (path : Text) (disk : F.Disk) → Keeps disk (require_directory F path disk)
  unfolding require_directory exit_with parsed_disk
  require_directory-Keeps path disk = elim (Bool-cases (F.is_directory disk path)) [
    | inl e ↦ rw e (record { kept = refl })
    | inr e ↦ rw e (record { kept = refl })
  ]

  require_empty-Keeps : (path : Text) (disk : F.Disk) → Keeps disk (require_empty F path disk)
  unfolding require_empty exit_with parsed_disk
  require_empty-Keeps path disk = elim (Bool-cases (F.is_empty disk path)) [
    | inl e ↦ rw e (record { kept = refl })
    | inr e ↦ rw e (record { kept = refl })
  ]

  signatures_unless_sentinel-Keeps :
      (path : Text) (disk : F.Disk) → Keeps disk (signatures_unless_sentinel F path disk)
  unfolding signatures_unless_sentinel set_signatures exit_with parsed_disk
  signatures_unless_sentinel-Keeps path disk = elim (Bool-cases (text_eq path (text "SENTINEL"))) [
    | inl e ↦ rw e (record { kept = refl })
    | inr e ↦ elim (Bool-cases (F.exists disk path)) [
      | inl e' ↦ rw (e, e') (record { kept = refl })
      | inr e' ↦ rw (e, e') (record { kept = refl })
    ]
  ]

  set_output_dir-Keeps :
      (path : Text) (disk : F.Disk)
      → F.exists disk path ≡ true
      → Keeps disk (set_output_dir F path false disk)
  unfolding set_output_dir clear_if ◌>>=◌ parsed_disk
  set_output_dir-Keeps path disk e =
      continue-Keeps _ _ disk (create_if_missing-Keeps path disk e) (λ _.
        continue-Keeps _ _ disk (require_directory-Keeps path disk) (λ _.
          continue-Keeps _ _ disk (require_empty-Keeps path disk) (λ _. record { kept = refl })))

  -- Without `-f`, and when the path of the output directory exists, the constructor leaves the disk
  -- as it is, whether it accepts the command line or not.
  pub new_options-unforced :
      (c : CommandLine) (disk : F.Disk)
      → c.force ≡ false
      → F.exists disk c.outdir ≡ true
      → parsed_disk disk (new_options F c disk) ≡ disk
  unfolding new_options set_input_files ◌>>=◌ parsed_disk
  new_options-unforced c disk e h =
      (continue-Keeps _ (set_output_dir F c.outdir c.force disk) disk
        (rw e (set_output_dir-Keeps c.outdir disk h))
        (λ _. continue-Keeps _ _ disk (add_inputs-Keeps c.recursive c.input_files [] disk) (λ _.
          continue-Keeps _ _ disk (signatures_unless_sentinel-Keeps c.signatures disk)
            (λ _. record { kept = refl })))).kept
