-- ===== src/Writer.antt =====
-- FactGenerator/src/FactWriter.cpp and FactGenerator/include/FactWriter.hpp: one file for each name
-- of a predicate, with a line for each fact.
pub mod Csv
pub mod Contents
pub mod RoundTrip
pub mod Columns
pub mod Files
pub mod Unique
pub mod Placed
use cclyzerpp.Prelude.{
  Text, text, text_eq, replace_char, Option, none, some, List, [], ◌∷◌, ◌++◌, if◌then◌else◌,
}
use cclyzerpp.Predicates.{Predicate, get_name}
use cclyzerpp.Gen.{Field, Fact}
use Csv.{CsvWriter, new_csv_writer, write}

pub record FactWriter : Type 0 where
  pub delim : Text
  pub outdir : Text
  pub writers : List (Text × CsvWriter)
  -- the files for which `create_directory(file.parent_path())` was called, the newest first
  pub opened : List Text

-- `pred.getName()`
unfoldable pub name_of : Predicate → Text
unfolding text
name_of p = text (get_name p)

-- `writers.find(key)`
unfoldable pub find_writer : Text → List (Text × CsvWriter) → Option CsvWriter
find_writer key [] = none
find_writer key ((k, w) ∷ ws) = if text_eq k key then some w else find_writer key ws

-- A call of a writer that is there, through the pointer to it.
unfoldable pub at_writer :
    (CsvWriter → CsvWriter) → Text → List (Text × CsvWriter) → List (Text × CsvWriter)
at_writer f key [] = []
at_writer f key ((k, w) ∷ ws) =
    let rest = at_writer f key ws in if text_eq k key then (k, f w) ∷ ws else (k, w) ∷ rest

-- `outdir / basename` is `join outdir basename`, of Boost.
module _ (join : Text → Text → Text) where
  unfoldable pub get_path : Text → Predicate → Text
  unfolding name_of text replace_char
  get_path outdir p = join outdir (replace_char b':' b'-' (name_of p)) ++ text ".csv.gz"

  -- `getWriter`: the state in which the writer is there.
  unfoldable pub get_writer : Predicate → FactWriter → FactWriter
  unfolding find_writer name_of get_path
  get_writer p fw = elim (find_writer (name_of p) fw.writers) [
    | some w ↦ fw
    | none ↦ record fw {
      writers = (name_of p, new_csv_writer (get_path fw.outdir p) fw.delim) ∷ fw.writers;
      opened = get_path fw.outdir p ∷ fw.opened;
    }
  ]

  -- `init_writers`
  unfoldable pub init_writers : List Predicate → FactWriter → FactWriter
  init_writers [] fw = fw
  init_writers (p ∷ ps) fw = init_writers ps (get_writer p fw)

  -- The constructor.
  unfoldable pub new_fact_writer : List Predicate → Text → Text → FactWriter
  unfolding init_writers
  new_fact_writer registry outdir delim =
      init_writers registry (record { delim = delim; outdir = outdir; writers = []; opened = [] })

  -- `writeFact`
  unfoldable pub write_fact_line : Fact → FactWriter → FactWriter
  unfolding get_writer at_writer
  write_fact_line f fw =
      let got = get_writer f.predicate fw in
      record got { writers = at_writer (write f.key f.fields) (name_of f.predicate) got.writers }

  -- The facts of a log, which has the newest first, one after the other.
  unfoldable pub write_log : List Fact → FactWriter → FactWriter
  unfolding write_fact_line
  write_log [] fw = fw
  write_log (f ∷ fs) fw = write_fact_line f (write_log fs fw)
