-- ===== src/Analysis/Rows.antt =====
-- src/PAInterface.h: the conversion of the relations that Souffle computed, and the results of the
-- pass that may stop. A row is read cell by cell, with the stream operators of `souffle::tuple`.
use cclyzerpp.Prelude.{ℕ, Text, text_eq, Option, none, some, List, [], ◌∷◌, if◌then◌else◌}
use cclyzerpp.Gen.{ℤ, Failure}

-- What stops the pass: the fact generator, an exit of a failed lookup (with the text that it
-- prints), the `logic_error` of an assertion, or a read through a null pointer.
pub data PassFailure : Type 0 where
  generator : Failure → PassFailure
  lookup_failed : Text → PassFailure
  logic_error : Text → PassFailure
  null_pointer filesystem_error : PassFailure

pub data Checked {ℓ} (A : Type ℓ) : Type ℓ where
  answer : A → Checked A
  failed : PassFailure → Checked A

infixl 5 ◌>>=◌
unfoldable pub ◌>>=◌ : {A B : Type 0} → Checked A → (A → Checked B) → Checked B
◌>>=◌ (answer a) f = f a
◌>>=◌ (failed e) f = failed e

-- The types of a column, and their elements; a value is an address.
pub data Column : Type 0 where
  int_column value_column flyweight_column string_column : Column

abbrev pub Cell : Column → Type 0
Cell int_column = ℤ
Cell value_column = ℕ
Cell flyweight_column = Text
Cell string_column = Text

-- `std::tuple<T, Ts...>`
abbrev pub Cells : List Column → Type 0
Cells [] = Unit {0}
Cells (c ∷ cs) = Cell c × Cells cs

-- `row >> t` for the two types that the sources read, each with the rest of the row.
pub record Reader (Row : Type 0) : Type 0 where
  pub read_int : Row → ℤ × Row
  pub read_text : Row → Text × Row

-- `llvm_val_map.at(t)`
unfoldable pub find_value : Text → List (Text × ℕ) → Option ℕ
find_value t [] = none
find_value t ((u, v) ∷ m) = if text_eq u t then some v else find_value t m

unfoldable pub value_or_exit : Text → Option ℕ → Checked ℕ
value_or_exit t none = failed (lookup_failed t)
value_or_exit t (some v) = answer v

module _ {Row : Type 0} (reader : Reader Row) (llvm_val_map : List (Text × ℕ)) where
  unfoldable pub extract_from_row : (c : Column) → Row → Checked (Cell c × Row)
  unfolding find_value value_or_exit ◌>>=◌
  extract_from_row int_column row = answer (reader.read_int row)
  extract_from_row value_column row = do
    let (t, rest) = reader.read_text row
    v ← value_or_exit t (find_value t llvm_val_map)
    answer (v, rest)
  extract_from_row flyweight_column row = answer (reader.read_text row)
  extract_from_row string_column row = answer (reader.read_text row)

  -- `std::tuple_cat` of the first element and the others.
  unfoldable pub extract_row : (cs : List Column) → Row → Checked (Cells cs)
  unfolding extract_from_row
  extract_row [] row = answer tt
  extract_row (c ∷ cs) row = do
    (t, rest) ← extract_from_row c row
    ts ← extract_row cs rest
    answer (t, ts)

  unfoldable pub relation_to_vector : (cs : List Column) → List Row → Checked (List (Cells cs))
  unfolding extract_row
  relation_to_vector cs [] = answer []
  relation_to_vector cs (row ∷ rows) = do
    t ← extract_row cs row
    vec ← relation_to_vector cs rows
    answer (t ∷ vec)
