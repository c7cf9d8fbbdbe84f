-- ===== src/Tests/Files.antt =====
-- Instances of the theorems on the files of facts.
use cclyzerpp.Prelude.{
  ℕ, Text, text, Bool, true, false, Option, none, some, List, [], ◌∷◌, ◌++◌, ◌≡◌, ◌≢◌, refl, ap,
  inl, inr, ◌⊎◌, Occurs, All, ◌==◌,
}
use cclyzerpp.Predicates.{block, constant, variable, ret, predicates_reg}
use cclyzerpp.Generate.{process_module}
use cclyzerpp.Gen.{Fact, str, num}
use cclyzerpp.Writer.{name_of, new_fact_writer, write_log}
use cclyzerpp.Writer.Contents.{contents_of, lines_of, contents_of-new_fact_writer}
use cclyzerpp.Writer.RoundTrip.{read_rows, rows_of, row_of, read_rows-lines_of}
use cclyzerpp.Writer.Columns.{have_columns, are_columns, is_column, have_columns_sound}
use cclyzerpp.Writer.Csv.{field_text}
use cclyzerpp.Writer.Files.{HasFile, new_fact_writer-HasFile}
use cclyzerpp.Wrapper.{files_behind}
use cclyzerpp.Wrapper.Files.{rows_in, files_behind-declared}
use cclyzerpp.Tests.Data.{tools, identity, small_module, start}
use cclyzerpp.Tests.Facts.{after_run, returned, parameter_ref, no_facts-HasIntegrity, runs}

abbrev join : Text → Text → Text
join dir name = dir ++ b'/' ∷ name

abbrev dir : Text
dir = b'o' ∷ []

abbrev tab : Text
tab = 9 ∷ []

abbrev facts : List Fact
facts =
    record { predicate = ret.operand; key = b'b' ∷ []; fields = str (b'x' ∷ []) ∷ num 7 ∷ [] }
    ∷ record { predicate = constant.id; key = b'x' ∷ []; fields = [] }
    ∷ record { predicate = ret.operand; key = b'a' ∷ []; fields = [] }
    ∷ []

contents_of-new_fact_writer_example :
    contents_of
      (name_of ret.operand)
      (write_log join facts (new_fact_writer join predicates_reg dir tab))
    ≡ lines_of tab (name_of ret.operand) facts
contents_of-new_fact_writer_example =
    contents_of-new_fact_writer join predicates_reg dir tab (name_of ret.operand) facts

facts_columns : have_columns 9 facts ≡ true
unfolding have_columns are_columns is_column field_text cclyzerpp.Prelude.Strings.to_text
facts_columns = refl

tab_is_no_line_feed : (10 == 9) ≡ false
tab_is_no_line_feed = refl

read_rows-lines_of_example :
    read_rows 9 [] [] (lines_of tab (name_of ret.operand) facts)
    ≡ rows_of (name_of ret.operand) facts
read_rows-lines_of_example =
    read_rows-lines_of 9 tab_is_no_line_feed (name_of ret.operand) facts
      (have_columns_sound 9 facts facts_columns)

new_fact_writer-HasFile_example :
    HasFile join
      (name_of block.predecessor)
      (write_log join facts (new_fact_writer join predicates_reg dir tab))
new_fact_writer-HasFile_example =
    new_fact_writer-HasFile join predicates_reg dir tab facts block.predecessor (inl refl)

files_behind-declared_example :
    let files =
      files_behind join dir
        (process_module tools small_module (b'm' ∷ []) none (b'i' ∷ []) start) in
    Occurs (row_of returned) (rows_in ret.operand files)
    × (Occurs (parameter_ref ∷ []) (rows_in constant.id files)
        ⊎ Occurs (parameter_ref ∷ []) (rows_in variable.id files))
files_behind-declared_example =
    files_behind-declared tools small_module identity [] (b'm' ∷ []) (b'i' ∷ []) start after_run tt
      join dir returned parameter_ref refl no_facts-HasIntegrity runs.1
      (have_columns_sound 9 after_run.log runs.4) runs.2 runs.3
