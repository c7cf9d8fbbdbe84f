-- ===== src/Writer/RoundTrip.antt =====
-- FactGenerator/include/CsvWriter.hpp: the files against a reader of delimited lines, as the
-- Datalog program reads them.
use mathlib.Core.List.{append_assoc, append-nil}
use cclyzerpp.Prelude.{
  ℕ, Text, text_eq, true, false, List, [], ◌∷◌, ◌++◌, ◌≡◌, refl, sym, ap, ◌∙◌, map, ◌==◌,
  Bool-cases, inl, inr, if◌then◌else◌, All, arith, ==_iff,
}
use cclyzerpp.Gen.{Fact, Field}
use cclyzerpp.Writer.{name_of}
use cclyzerpp.Writer.Csv.{field_text, append_fields, line}
use cclyzerpp.Writer.Contents.{lines_of}

-- A reader with a delimiter of one character: the columns of the row so far, and the column so far.
unfoldable pub read_rows : ℕ → List Text → Text → Text → List (List Text)
read_rows d row col [] = []
read_rows d row col (c ∷ s) =
    let next_row = read_rows d [] [] s in
    let next_col = read_rows d (row ++ col ∷ []) [] s in
    let more = read_rows d row (col ++ c ∷ []) s in
    if c == 10 then (row ++ col ∷ []) ∷ next_row else if c == d then next_col else more

-- The text has neither the delimiter nor a line feed.
abbrev pub IsColumn : ℕ → Text → Type 0
IsColumn d = All (λ c. ((c == d) ≡ false) × ((c == 10) ≡ false))

abbrev pub HasColumns : ℕ → Fact → Type 0
HasColumns d f = IsColumn d f.key × All (λ v. IsColumn d (field_text v)) f.fields

abbrev pub row_of : Fact → List Text
row_of f = f.key ∷ map field_text f.fields

-- The rows of a predicate's name, the oldest first.
unfoldable pub rows_of : Text → List Fact → List (List Text)
rows_of key [] = []
rows_of key (f ∷ fs) =
    let before = rows_of key fs in
    if text_eq (name_of f.predicate) key then before ++ row_of f ∷ [] else before

module _ (d : ℕ) (separate : (10 == d) ≡ false) where
  read_rows-column :
      (t rest : Text) (row : List Text) (col : Text)
      → IsColumn d t
      → read_rows d row col (t ++ rest) ≡ read_rows d row (col ++ t) rest
  unfolding read_rows
  read_rows-column [] rest row col k = ap (λ c. read_rows d row c rest) (sym (append-nil col))
  read_rows-column (c ∷ t) rest row col ((nd, nl), k) =
      rw (nl, nd)
        (read_rows-column t rest row (col ++ c ∷ []) k
          ∙ ap (λ c. read_rows d row c rest) (append_assoc col (c ∷ []) t))

  read_rows-fields :
      (fields : List Field) (rest : Text) (row : List Text) (col : Text)
      → (d == d) ≡ true
      → (d == 10) ≡ false
      → All (λ v. IsColumn d (field_text v)) fields
      → read_rows d row col (append_fields (d ∷ []) fields ++ 10 ∷ rest)
        ≡ (row ++ col ∷ map field_text fields) ∷ read_rows d [] [] rest
  unfolding read_rows append_fields
  read_rows-fields [] rest row col r n k = refl
  read_rows-fields (f ∷ fs) rest row col r n (k, ks) =
      rw (n, r)
        (ap (read_rows d (row ++ col ∷ []) [])
            (append_assoc (field_text f) (append_fields (d ∷ []) fs) (10 ∷ rest))
          ∙ read_rows-column (field_text f) _ (row ++ col ∷ []) [] k
          ∙ read_rows-fields fs rest (row ++ col ∷ []) (field_text f) r n ks
          ∙ ap (λ r. r ∷ read_rows d [] [] rest) (append_assoc row (col ∷ []) _))

  read_rows-line :
      (f : Fact) (rest : Text)
      → HasColumns d f
      → read_rows d [] [] (line (d ∷ []) f.key f.fields ++ rest) ≡ row_of f ∷ read_rows d [] [] rest
  unfolding line
  read_rows-line f rest (k, ks) =
      let fields = append_fields (d ∷ []) f.fields in
      ap (read_rows d [] [])
        (append_assoc (f.key ++ fields) (10 ∷ []) rest ∙ append_assoc f.key fields (10 ∷ rest))
      ∙ read_rows-column f.key _ [] [] k
      ∙ read_rows-fields f.fields rest [] f.key ((==_iff d d).1 refl) (ground arith) ks

  read_rows-lines_of_append :
      (key : Text) (facts : List Fact) (rest : Text)
      → All (HasColumns d) facts
      → read_rows d [] [] (lines_of (d ∷ []) key facts ++ rest)
        ≡ rows_of key facts ++ read_rows d [] [] rest
  unfolding lines_of rows_of
  read_rows-lines_of_append key [] rest h = refl
  read_rows-lines_of_append key (f ∷ fs) rest (k, h) =
      let before = lines_of (d ∷ []) key fs in
      elim (Bool-cases (text_eq (name_of f.predicate) key)) [
        | inl e ↦ rw e (
            ap (read_rows d [] []) (append_assoc before (line (d ∷ []) f.key f.fields) rest)
            ∙ read_rows-lines_of_append key fs (line (d ∷ []) f.key f.fields ++ rest) h
            ∙ ap (λ r. rows_of key fs ++ r) (read_rows-line f rest k)
            ∙ sym (append_assoc (rows_of key fs) (row_of f ∷ []) _))
        | inr e ↦ rw e (read_rows-lines_of_append key fs rest h)
      ]

  -- Where no column has the delimiter (one character, no line feed) or a line feed, reading the
  -- lines of a predicate gives its facts back, the oldest first.
  pub read_rows-lines_of :
      (key : Text) (facts : List Fact)
      → All (HasColumns d) facts
      → read_rows d [] [] (lines_of (d ∷ []) key facts) ≡ rows_of key facts
  unfolding read_rows
  read_rows-lines_of key facts h =
      ap (read_rows d [] []) (sym (append-nil (lines_of (d ∷ []) key facts)))
      ∙ read_rows-lines_of_append key facts [] h
      ∙ append-nil _
