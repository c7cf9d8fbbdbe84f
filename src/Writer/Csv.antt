-- ===== src/Writer/Csv.antt =====
-- FactGenerator/include/CsvWriter.hpp: a writer of one file of tab-separated (or otherwise
-- delimited) lines. The compression of the stream is not modelled: `contents` is what is written
-- into the stream.
use cclyzerpp.Prelude.{suc, Text, to_text, List, [], ◌∷◌, ◌++◌}
use cclyzerpp.Gen.{pos, negsuc, Field, str, num, int}

pub record CsvWriter : Type 0 where
  pub file : Text
  pub delimiter : Text
  pub contents : Text

-- `csv_writer(csvfile, delimiter, mode)`: the mode `out` empties the file.
unfoldable pub new_csv_writer : Text → Text → CsvWriter
new_csv_writer file delimiter = record { file = file; delimiter = delimiter; contents = [] }

-- `out << value`
unfoldable pub field_text : Field → Text
field_text (str t) = t
field_text (num n) = to_text n
field_text (int (pos n)) = to_text n
field_text (int (negsuc n)) = b'-' ∷ to_text (suc n)

-- `appendFields`
unfoldable pub append_fields : Text → List Field → Text
append_fields delimiter [] = []
append_fields delimiter (f ∷ fs) = delimiter ++ field_text f ++ append_fields delimiter fs

-- What `write` puts into the stream.
unfoldable pub line : Text → Text → List Field → Text
unfolding append_fields field_text
line delimiter hdr fields = hdr ++ append_fields delimiter fields ++ 10 ∷ []

-- `write`
unfoldable pub write : Text → List Field → CsvWriter → CsvWriter
unfolding line
write hdr fields w = record w { contents = w.contents ++ line w.delimiter hdr fields }
