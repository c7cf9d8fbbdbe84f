-- ===== src/Writer/Columns.antt =====
-- FactGenerator/include/CsvWriter.hpp: a test for the texts that a column can hold.
use cclyzerpp.Prelude.{ℕ, Text, Bool, true, false, not, ◌&&◌, ◌==◌, List, [], ◌∷◌, ◌≡◌, refl, All}
use cclyzerpp.Gen.{Fact, Field}
use cclyzerpp.Writer.Csv.{field_text}
use cclyzerpp.Writer.RoundTrip.{IsColumn, HasColumns}

unfoldable pub is_column : ℕ → Text → Bool
is_column d [] = true
is_column d (c ∷ s) = not (c == d) && (not (c == 10) && is_column d s)

unfoldable pub are_columns : ℕ → List Field → Bool
unfolding is_column
are_columns d [] = true
are_columns d (v ∷ vs) = is_column d (field_text v) && are_columns d vs

unfoldable pub have_columns : ℕ → List Fact → Bool
unfolding is_column are_columns
have_columns d [] = true
have_columns d (f ∷ fs) = is_column d f.key && (are_columns d f.fields && have_columns d fs)

both_true : (a b : Bool) → a && b ≡ true → (a ≡ true) × (b ≡ true)
both_true true b h = (refl, h)
both_true false b h = cc

not-true : (a : Bool) → not a ≡ true → a ≡ false
not-true true h = cc
not-true false h = refl

is_column_sound : (d : ℕ) (t : Text) → is_column d t ≡ true → IsColumn d t
unfolding is_column
is_column_sound d [] h = tt
is_column_sound d (c ∷ s) h =
    let (a, r) = both_true _ _ h in
    let (b, r') = both_true _ _ r in ((not-true _ a, not-true _ b), is_column_sound d s r')

are_columns_sound :
    (d : ℕ) (vs : List Field) → are_columns d vs ≡ true → All (λ v. IsColumn d (field_text v)) vs
unfolding are_columns
are_columns_sound d [] h = tt
are_columns_sound d (v ∷ vs) h =
    let (a, r) = both_true _ _ h in (is_column_sound d (field_text v) a, are_columns_sound d vs r)

pub have_columns_sound : (d : ℕ) (fs : List Fact) → have_columns d fs ≡ true → All (HasColumns d) fs
unfolding have_columns
have_columns_sound d [] h = tt
have_columns_sound d (f ∷ fs) h =
    let (a, r) = both_true _ _ h in
    let (b, r') = both_true _ _ r in
    ((is_column_sound d f.key a, are_columns_sound d f.fields b), have_columns_sound d fs r')
