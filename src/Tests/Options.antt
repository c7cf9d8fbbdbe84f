-- ===== src/Tests/Options.antt =====
-- Instances of the theorems on the options.
use cclyzerpp.Prelude.{Text, text_eq, true, false, some, List, [], ◌∷◌, ◌≡◌, refl, ◌↔◌, All}
use cclyzerpp.Sensitivity.{insensitive}
use cclyzerpp.Options.{CommandLine, Options, parsed, set_input_files, new_options}
use cclyzerpp.Options.Files.{IsAcceptable, files_of_all, parsed_disk, set_input_files-parsed_iff}
use cclyzerpp.Options.Accepted.{IsOutput, AreSignatures, new_options-accepted}
use cclyzerpp.Options.Unforced.{new_options-unforced}
use cclyzerpp.Tests.Disk.{test_disk}

abbrev disk : test_disk.Disk
disk = (b'o' ∷ [], true) ∷ (b'm' ∷ [], false) ∷ (b's' ∷ [], false) ∷ []

abbrev inputs : List Text
inputs = (b'm' ∷ []) ∷ []

set_input_files-parsed_iff_example :
    (set_input_files test_disk false inputs disk ≡ parsed inputs disk) ↔ (
      All (IsAcceptable test_disk false disk) inputs
      × (inputs ≡ files_of_all test_disk false disk inputs)
      × (disk ≡ disk))
set_input_files-parsed_iff_example =
    set_input_files-parsed_iff test_disk false disk disk inputs inputs

abbrev command : CommandLine
command = record {
  delim = 9 ∷ [];
  outdir = b'o' ∷ [];
  signatures = b's' ∷ [];
  context_sensitivity = insensitive;
  recursive = false;
  force = false;
  input_files = inputs;
}

abbrev accepted : Options
accepted = record {
  delim = 9 ∷ [];
  signatures = some (b's' ∷ []);
  outdir = b'o' ∷ [];
  input_files = inputs;
  context_sensitivity = insensitive;
}

command-accepted : new_options test_disk command disk ≡ parsed accepted disk
unfolding new_options text_eq
command-accepted = refl

new_options-accepted_example :
    (accepted.outdir ≡ command.outdir)
    × IsOutput test_disk command.outdir command.force disk disk
    × All (IsAcceptable test_disk command.recursive disk) command.input_files
    × (accepted.input_files ≡ files_of_all test_disk command.recursive disk command.input_files)
    × AreSignatures test_disk command.signatures disk accepted.signatures
new_options-accepted_example =
    new_options-accepted test_disk command accepted disk disk command-accepted

outdir-exists : test_disk.exists disk command.outdir ≡ true
unfolding text_eq
outdir-exists = refl

new_options-unforced_example : parsed_disk disk (new_options test_disk command disk) ≡ disk
new_options-unforced_example = new_options-unforced test_disk command disk refl outdir-exists
