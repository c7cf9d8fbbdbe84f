-- ===== src/Tests/Disk.antt =====
-- Disks for the tests: one that has paths, of which some are directories (without entries), and one
-- that has files with their contents.
use cclyzerpp.Prelude.{
  Text, text_eq, text_eq_refl, text_eq_sound, Bool, true, false, Option, none, some, List, [], ◌∷◌,
  ◌≡◌, ◌≢◌, refl, Bool-cases, inl, inr, if◌then◌else◌,
}
use cclyzerpp.Disk.{FileSystem}
use cclyzerpp.Analysis.Stored.{IsStore}

abbrev Paths : Type 0
Paths = List (Text × Bool)

abbrev has_path : Text → Paths → Bool
has_path p [] = false
has_path p ((q, d) ∷ ps) = if text_eq q p then true else has_path p ps

abbrev is_directory : Text → Paths → Bool
is_directory p [] = false
is_directory p ((q, d) ∷ ps) = if text_eq q p then d else is_directory p ps

abbrev remove : Text → Paths → Paths
remove p [] = []
remove p ((q, d) ∷ ps) = let rest = remove p ps in if text_eq q p then rest else (q, d) ∷ rest

abbrev pub test_disk : FileSystem
test_disk = record {
  Disk = Paths;
  exists = λ disk p. has_path p disk;
  is_directory = λ disk p. is_directory p disk;
  is_empty = λ disk p. true;
  entries = λ disk p. [];
  entries_recursive = λ disk p. [];
  create_directory = λ disk p. some ((p, true) ∷ disk);
  create_directories = λ disk p. some ((p, true) ∷ disk);
  create_parent_directory = λ disk p. some disk;
  remove_all = λ disk p. remove p disk;
  store = λ disk p contents. (p, false) ∷ disk;
}

abbrev Files : Type 0
Files = List (Text × Text)

abbrev pub contents : Files → Text → Option Text
contents [] p = none
contents ((q, t) ∷ files) p = if text_eq q p then some t else contents files p

abbrev pub file_disk : FileSystem
file_disk = record {
  Disk = Files;
  exists = λ disk p. true;
  is_directory = λ disk p. false;
  is_empty = λ disk p. true;
  entries = λ disk p. [];
  entries_recursive = λ disk p. [];
  create_directory = λ disk p. some disk;
  create_directories = λ disk p. some disk;
  create_parent_directory = λ disk p. some disk;
  remove_all = λ disk p. disk;
  store = λ disk p t. (p, t) ∷ disk;
}

contents-others :
    (disk : Files) (p t q : Text) → p ≢ q → contents ((p, t) ∷ disk) q ≡ contents disk q
contents-others disk p t q apart = elim (Bool-cases (text_eq p q)) [
  | inl e ↦ absurd (apart (text_eq_sound p q e))
  | inr e ↦ rw e refl
]

pub file_disk-IsStore : IsStore file_disk contents
file_disk-IsStore = record {
  self = λ disk p t. rw (text_eq_refl p) refl;
  others = λ disk p t q apart. contents-others disk p t q apart;
}
