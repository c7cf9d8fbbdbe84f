-- ===== src/Assembly/Canonical.antt =====
-- FactGenerator/src/Assembly.cpp, `canonicalize`: its result fits a column of a line of a
-- tab-separated file.
use cclyzerpp.Prelude.{ℕ, Text, [], ◌∷◌, ◌++◌, ◌≢◌, arith, Bool-cases, inl, inr, ◌==◌, All}
use cclyzerpp.Assembly.{replace_all, canonicalize}

All-append : (P : ℕ → Type 0) (s t : Text) → All P s → All P t → All P (s ++ t)
All-append P [] t h k = k
All-append P (c ∷ s) t h k = (h.0, All-append P s t h.1 k)

-- Replacing a character keeps what holds of the others and of the new text.
replace_all-All :
    (P Q : ℕ → Type 0) (old : ℕ) (new s : Text)
    → All Q new
    → ((c : ℕ) → c ≢ old → P c → Q c)
    → All P s
    → All Q (replace_all old new s)
unfolding replace_all
replace_all-All P Q old new [] n h a = tt
replace_all-All P Q old new (c ∷ s) n h a =
    let rest = replace_all-All P Q old new s n h a.1 in
    elim (Bool-cases (c == old)) [
      | inl e ↦ rw e (All-append Q new _ n rest)
      | inr e ↦ rw e (h c (λ same. ground arith) a.0, rest)
    ]

everything : (s : Text) → All (λ c. Unit {0}) s
everything [] = tt
everything (c ∷ s) = (tt, everything s)

-- The canonical text has neither a tab (9), which separates columns, nor a line feed (10).
pub canonicalize-All : (s : Text) → All (λ c. (c ≢ 9) × (c ≢ 10)) (canonicalize s)
unfolding canonicalize
canonicalize-All s =
    replace_all-All (λ c. c ≢ 9) (λ c. (c ≢ 9) × (c ≢ 10)) 10 (b'\\' ∷ b'n' ∷ []) _
      ((λ e. omega arith, λ e. omega arith), ((λ e. omega arith, λ e. omega arith), tt))
      (λ c n t. (t, n))
      (replace_all-All (λ c. Unit {0}) (λ c. c ≢ 9) 9 (b'\\' ∷ b't' ∷ []) s
        (λ e. omega arith, (λ e. omega arith, tt)) (λ c n u. n) (everything s))
