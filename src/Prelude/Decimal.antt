-- ===== src/Prelude/Decimal.antt =====
-- Decimal numerals determine their numbers.
use Prim.Native.Nat.{ℕ, zero, suc, ◌+◌, ◌-◌, ◌*◌, ◌/◌, ◌%◌, ◌≤◌, ◌<◌}
use mathlib.Core.Path.{◌≡◌, refl, ap, sym, ◌∙◌}
use mathlib.Core.Logic.{inl, inr}
use mathlib.Core.Bool.{false}
use mathlib.Core.List.{[], ◌∷◌, ◌++◌, append_assoc}
use native.Mathlib.Omega.{arith}
use cclyzerpp.Prelude.Tests.{ltb, if◌then◌else◌, Bool-cases}
use cclyzerpp.Prelude.Strings.{Text, to_text, decimal_from}

-- The number that digits stand for, up to a character that is no digit.
unfoldable pub number_before : ℕ → Text → ℕ
number_before acc [] = acc
number_before acc (c ∷ s) =
    let rest = number_before (acc * 10 + (c - 48)) s in
    if ltb 57 c then acc else if ltb c 48 then acc else rest

digit :
    (q d : ℕ) (rest : Text)
    → d < 10
    → number_before q ((48 + d) ∷ rest) ≡ number_before (q * 10 + d) rest
unfolding number_before
digit q d rest l =
    let high : ltb 57 (48 + d) ≡ false = ground arith in
    let low : ltb (48 + d) 48 ≡ false = ground arith in
    let value : q * 10 + (48 + d - 48) ≡ q * 10 + d = omega arith in rw (high, low, value) refl

number_before-append :
    (f n : ℕ) (rest : Text)
    → n < f
    → number_before 0 (decimal_from f n ++ rest) ≡ number_before n rest
unfolding decimal_from
number_before-append zero n rest l = let impossible : ⊥ = omega (arith, l) in absurd impossible
number_before-append (suc f) n rest l = elim (Bool-cases (ltb n 10)) [
  | inl e ↦
      let whole : 0 * 10 + n ≡ n = omega arith in
      rw e (digit 0 n rest (ground arith) ∙ ap (λ k. number_before k rest) whole)
  | inr e ↦
      let large : 10 ≤ n = ground arith in
      let smaller : n / 10 < f = omega (arith, large, l) in
      let low : n % 10 < 10 = omega arith in
      let whole : n / 10 * 10 + n % 10 ≡ n = omega arith in
      rw e (
        ap (number_before 0) (append_assoc (decimal_from f (n / 10)) ((48 + n % 10) ∷ []) rest)
        ∙ number_before-append f (n / 10) ((48 + n % 10) ∷ rest) smaller
        ∙ digit (n / 10) (n % 10) rest low
        ∙ ap (λ k. number_before k rest) whole)
]

-- Numerals that end at the same separator are of the same number.
pub to_text-injective_before :
    (m n : ℕ) (r s : Text) → to_text m ++ b':' ∷ r ≡ to_text n ++ b':' ∷ s → m ≡ n
unfolding to_text number_before
to_text-injective_before m n r s e =
    sym (number_before-append (suc m) m (b':' ∷ r) (omega arith))
    ∙ ap (number_before 0) e
    ∙ number_before-append (suc n) n (b':' ∷ s) (omega arith)
