-- ===== src/Analysis/Reading.antt =====
-- src/PAInterface.h, `relation_to_vector`: what the vector of a relation is, and when there is none.
use cclyzerpp.Prelude.{ℕ, Text, Option, none, some, List, [], ◌∷◌, ◌≡◌, refl, sym, subst, ◌↔◌}
use cclyzerpp.Analysis.Rows.{
  Checked, answer, failed, PassFailure, lookup_failed, ◌>>=◌, Column, int_column, value_column,
  flyweight_column, string_column, Cell, Cells, Reader, find_value, value_or_exit, extract_from_row,
  extract_row, relation_to_vector,
}

module _ {Row : Type 0} (reader : Reader Row) (llvm_val_map : List (Text × ℕ)) where
  -- What is left of a row after a cell.
  abbrev pub rest_of : Column → Row → Row
  rest_of int_column row = (reader.read_int row).1
  rest_of value_column row = (reader.read_text row).1
  rest_of flyweight_column row = (reader.read_text row).1
  rest_of string_column row = (reader.read_text row).1

  -- The element that the first cell of a row stands for; a value stands under its text in the map.
  abbrev pub Denotes : (c : Column) → Row → Cell c → Type 0
  Denotes int_column row i = (reader.read_int row).0 ≡ i
  Denotes value_column row v = find_value (reader.read_text row).0 llvm_val_map ≡ some v
  Denotes flyweight_column row t = (reader.read_text row).0 ≡ t
  Denotes string_column row t = (reader.read_text row).0 ≡ t

  abbrev pub RowDenotes : (cs : List Column) → Row → Cells cs → Type 0
  RowDenotes [] row u = Unit {0}
  RowDenotes (c ∷ cs) row (t, ts) = Denotes c row t × RowDenotes cs (rest_of c row) ts

  abbrev pub RelationDenotes : (cs : List Column) → List Row → List (Cells cs) → Type 0
  RelationDenotes cs [] [] = Unit {0}
  RelationDenotes cs [] (_ ∷ _) = ⊥
  RelationDenotes cs (_ ∷ _) [] = ⊥
  RelationDenotes cs (row ∷ rows) (t ∷ ts) = RowDenotes cs row t × RelationDenotes cs rows ts

  -- A failure names a text that the map does not have.
  abbrev pub IsMissing : PassFailure → Type 0
  IsMissing (lookup_failed t) = find_value t llvm_val_map ≡ none
  IsMissing _ = ⊥

  -- Either the result stands in the relation, or the failure is a missing text.
  abbrev pub Gives : {A : Type 0} → (A → Type 0) → Checked A → Type 0
  Gives P (answer a) = P a
  Gives P (failed e) = IsMissing e

  Gives-bind :
      {A B : Type 0} (P : A → Type 0) (Q : B → Type 0) (m : Checked A) (f : A → Checked B)
      → Gives P m
      → ((a : A) → P a → Gives Q (f a))
      → Gives Q (m >>= f)
  unfolding ◌>>=◌
  Gives-bind P Q (answer a) f h k = k a h
  Gives-bind P Q (failed e) f h k = h

  value_or_exit-Gives :
      (t : Text) (o : Option ℕ)
      → find_value t llvm_val_map ≡ o
      → Gives (λ v. find_value t llvm_val_map ≡ some v) (value_or_exit t o)
  unfolding value_or_exit
  value_or_exit-Gives t none e = e
  value_or_exit-Gives t (some v) e = e

  extract_from_row-Gives :
      (c : Column) (row : Row)
      → Gives
          (λ p. Denotes c row p.0 × (p.1 ≡ rest_of c row))
          (extract_from_row reader llvm_val_map c row)
  unfolding extract_from_row
  extract_from_row-Gives int_column row = (refl, refl)
  extract_from_row-Gives value_column row =
      Gives-bind {A = ℕ} {B = ℕ × Row} _
        (λ p. Denotes value_column row p.0 × (p.1 ≡ rest_of value_column row)) _
        (λ v. answer (v, (reader.read_text row).1))
        (value_or_exit-Gives (reader.read_text row).0 _ refl) (λ v e. (e, refl))
  extract_from_row-Gives flyweight_column row = (refl, refl)
  extract_from_row-Gives string_column row = (refl, refl)

  extract_row-Gives :
      (cs : List Column) (row : Row)
      → Gives (RowDenotes cs row) (extract_row reader llvm_val_map cs row)
  unfolding extract_row
  extract_row-Gives [] row = tt
  extract_row-Gives (c ∷ cs) row =
      Gives-bind {A = Cell c × Row} {B = Cells (c ∷ cs)}
        (λ p. Denotes c row p.0 × (p.1 ≡ rest_of c row)) (RowDenotes (c ∷ cs) row) _ _
        (extract_from_row-Gives c row)
        (λ p h.
          Gives-bind {A = Cells cs} {B = Cells (c ∷ cs)} (RowDenotes cs (rest_of c row))
            (RowDenotes (c ∷ cs) row) _ (λ ts. answer (p.0, ts))
            (rw h.1 (extract_row-Gives cs (rest_of c row))) (λ ts k. (h.0, k)))

  -- Either each row stands for an element of the vector, in the same order, or the pass stops at a
  -- text that the map of values does not have.
  pub relation_to_vector-Gives :
      (cs : List Column) (rows : List Row)
      → Gives (RelationDenotes cs rows) (relation_to_vector reader llvm_val_map cs rows)
  unfolding relation_to_vector
  relation_to_vector-Gives cs [] = tt
  relation_to_vector-Gives cs (row ∷ rows) =
      Gives-bind {A = Cells cs} {B = List (Cells cs)} (RowDenotes cs row)
        (RelationDenotes cs (row ∷ rows)) _ _ (extract_row-Gives cs row)
        (λ t h.
          Gives-bind {A = List (Cells cs)} {B = List (Cells cs)} (RelationDenotes cs rows)
            (RelationDenotes cs (row ∷ rows)) _ (λ ts. answer (t ∷ ts))
            (relation_to_vector-Gives cs rows) (λ ts k. (h, k)))

  extract_from_row_complete :
      (c : Column) (row : Row) (t : Cell c)
      → Denotes c row t
      → extract_from_row reader llvm_val_map c row ≡ answer (t, rest_of c row)
  unfolding extract_from_row value_or_exit ◌>>=◌
  extract_from_row_complete int_column row t h = rw (sym h) refl
  extract_from_row_complete value_column row t h = rw h refl
  extract_from_row_complete flyweight_column row t h = rw (sym h) refl
  extract_from_row_complete string_column row t h = rw (sym h) refl

  pub extract_row_complete :
      (cs : List Column) (row : Row) (ts : Cells cs)
      → RowDenotes cs row ts
      → extract_row reader llvm_val_map cs row ≡ answer ts
  unfolding extract_row ◌>>=◌
  extract_row_complete [] row tt h = refl
  extract_row_complete (c ∷ cs) row (t, ts) h =
      rw (extract_from_row_complete c row t h.0, extract_row_complete cs (rest_of c row) ts h.1)
        refl

  relation_to_vector_complete :
      (cs : List Column) (rows : List Row) (vec : List (Cells cs))
      → RelationDenotes cs rows vec
      → relation_to_vector reader llvm_val_map cs rows ≡ answer vec
  unfolding relation_to_vector ◌>>=◌
  relation_to_vector_complete cs [] [] h = refl
  relation_to_vector_complete cs [] (t ∷ ts) h = absurd h
  relation_to_vector_complete cs (row ∷ rows) [] h = absurd h
  relation_to_vector_complete cs (row ∷ rows) (t ∷ ts) h =
      rw (extract_row_complete cs row t h.0, relation_to_vector_complete cs rows ts h.1) refl

  -- `relation_to_vector` answers a vector exactly when each row stands for the element at its place,
  -- that is, each cell is the number or the text there, or the value that the map has for the text.
  pub relation_to_vector-answer_iff :
      (cs : List Column) (rows : List Row) (vec : List (Cells cs))
      → (relation_to_vector reader llvm_val_map cs rows ≡ answer vec) ↔ RelationDenotes cs rows vec
  relation_to_vector-answer_iff cs rows vec = (
    λ e. subst (Gives (RelationDenotes cs rows)) e (relation_to_vector-Gives cs rows),
    relation_to_vector_complete cs rows vec,
  )
