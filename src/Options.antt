-- ===== src/Options.antt =====
-- FactGenerator/src/Options.cpp: what the constructor of `Options` does with the parsed command line.
-- The parsing is Boost's; the disk is passed from call to call.
pub mod Files
pub mod Accepted
pub mod Unforced
use cclyzerpp.Prelude.{
  Text, text, text_eq, Bool, true, false, not, Option, none, some, List, [], ◌∷◌, ◌++◌,
  if◌then◌else◌,
}
use cclyzerpp.Disk.{FileSystem}
use cclyzerpp.Sensitivity.{ContextSensitivity}

-- What `po::notify` leaves: the values of the options, with their defaults.
pub record CommandLine : Type 0 where
  pub delim : Text
  pub outdir : Text
  pub signatures : Text
  pub context_sensitivity : ContextSensitivity
  pub recursive : Bool
  pub force : Bool
  pub input_files : List Text

pub record Options : Type 0 where
  pub delim : Text
  pub signatures : Option Text
  pub outdir : Text
  pub input_files : List Text
  pub context_sensitivity : ContextSensitivity

-- An exit with `ERROR_IN_COMMAND_LINE`, and what is printed before the path, or an exception of a
-- call of the file system.
pub data OptionsFailure : Type 0 where
  error_in_command_line : Text → Text → OptionsFailure
  filesystem_error : OptionsFailure

-- A result with the disk, or a failure with the disk that it leaves.
pub data Parsed (D : Type 0) (A : Type 0) : Type 0 where
  parsed : A → D → Parsed D A
  ended : OptionsFailure → D → Parsed D A

abbrev pub continue : {D A B : Type 0} → (A → D → Parsed D B) → Parsed D A → Parsed D B
continue f (parsed a d) = f a d
continue f (ended e d) = ended e d

infixl 5 ◌>>=◌ ◌>>◌
unfoldable pub ◌>>=◌ : {D A B : Type 0} → (D → Parsed D A) → (A → D → Parsed D B) → D → Parsed D B
◌>>=◌ m f d = continue f (m d)

abbrev pub ◌>>◌ : {D A B : Type 0} → (D → Parsed D A) → (D → Parsed D B) → D → Parsed D B
m >> n = m >>= λ _. n

module _ (F : FileSystem) where
  abbrev pub Action : Type 0 → Type 0
  Action A = F.Disk → Parsed F.Disk A

  unfoldable pub exit_with : {A : Type 0} → Text → Text → Action A
  exit_with message path disk = ended (error_in_command_line message path) disk

  unfoldable pub add_files : List Text → List Text → F.Disk → List Text
  add_files [] input_files disk = input_files
  add_files (p ∷ ps) input_files disk =
      add_files ps (if F.is_directory disk p then input_files else input_files ++ p ∷ []) disk

  -- The files that an input path stands for, appended to those before.
  unfoldable pub add_input : Bool → Text → List Text → Action (List Text)
  unfolding add_files exit_with text
  add_input recurse path input_files disk =
      if not (F.exists disk path)
      then exit_with (text "Path does not exist: ") path disk
      else if not (F.is_directory disk path)
      then parsed (input_files ++ path ∷ []) disk
      else if not recurse
      then exit_with (text "Input directory given, without -r option: ") path disk
      else parsed (add_files (F.entries_recursive disk path) input_files disk) disk

  unfoldable pub add_inputs : Bool → List Text → List Text → Action (List Text)
  unfolding add_input ◌>>=◌
  add_inputs recurse [] input_files = parsed input_files
  add_inputs recurse (p ∷ ps) input_files = do
    files ← add_input recurse p input_files
    add_inputs recurse ps files

  -- `set_input_files`
  unfoldable pub set_input_files : Bool → List Text → Action (List Text)
  unfolding add_inputs
  set_input_files recurse paths = add_inputs recurse paths []

  unfoldable pub create_if_missing : Text → Action (Unit {0})
  create_if_missing path disk =
      if F.exists disk path then parsed tt disk else elim (F.create_directory disk path) [
        | none ↦ ended filesystem_error disk
        | some disk' ↦ parsed tt disk'
      ]

  unfoldable pub require_directory : Text → Action (Unit {0})
  unfolding exit_with text
  require_directory path disk =
      if F.is_directory disk path
      then parsed tt disk
      else exit_with (text "Not a directory: ") path disk

  unfoldable pub remove_entries : List Text → F.Disk → F.Disk
  remove_entries [] disk = disk
  remove_entries (p ∷ ps) disk = remove_entries ps (F.remove_all disk p)

  unfoldable pub clear_if : Bool → Text → Action (Unit {0})
  unfolding remove_entries
  clear_if true path disk = parsed tt (remove_entries (F.entries disk path) disk)
  clear_if false path disk = parsed tt disk

  unfoldable pub require_empty : Text → Action (Unit {0})
  unfolding exit_with text
  require_empty path disk =
      if F.is_empty disk path
      then parsed tt disk
      else exit_with (text "Directory not empty: ") path disk

  -- `set_output_dir`
  unfoldable pub set_output_dir : Text → Bool → Action Text
  unfolding create_if_missing require_directory clear_if require_empty ◌>>=◌
  set_output_dir path force = do
    create_if_missing path
    require_directory path
    clear_if force path
    require_empty path
    parsed path

  -- `set_signatures`
  unfoldable pub set_signatures : Text → Action (Option Text)
  unfolding exit_with text
  set_signatures path disk =
      if F.exists disk path
      then parsed (some path) disk
      else exit_with (text "No such signature file: ") path disk

  -- The default value of the option stands for no file.
  unfoldable pub signatures_unless_sentinel : Text → Action (Option Text)
  unfolding set_signatures text
  signatures_unless_sentinel path =
      if text_eq path (text "SENTINEL") then parsed none else set_signatures path

  -- The constructor, behind the parser.
  unfoldable pub new_options : CommandLine → Action Options
  unfolding set_output_dir set_input_files signatures_unless_sentinel ◌>>=◌
  new_options c = do
    out ← set_output_dir c.outdir c.force
    files ← set_input_files c.recursive c.input_files
    s ← signatures_unless_sentinel c.signatures
    parsed (record {
      delim = c.delim;
      signatures = s;
      outdir = out;
      input_files = files;
      context_sensitivity = c.context_sensitivity;
    })
