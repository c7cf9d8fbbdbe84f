-- ===== src/Refmode/Distinct.antt =====
-- FactGenerator/src/RefmodeEngineImpl.cpp, `computeNumbering`: no two values get the same number,
-- as long as the counter does not pass 2 ^ 32.
use cclyzerpp.Prelude.{
  ℕ, ◌+◌, ◌%◌, ◌^◌, ◌≤◌, ◌<◌, ◌==◌, some, List, [], ◌∷◌, ◌≡◌, refl, arith, Bool-cases, inl, inr,
  ==_iff, sym, ◌∙◌, subst,
}
use cclyzerpp.Ir.{Value, Function}
use cclyzerpp.Refmode.Numbering.{Numbering, assign, compute_numbering, find_number}
use cclyzerpp.Refmode.Counting.{function_values, number_function-Counts}

-- Numbers below a bound, and each below the ones assigned after it.
abbrev Decreasing : ℕ → List (ℕ × ℕ) → Type 0
Decreasing bound [] = Unit
Decreasing bound ((a, n) ∷ table) = (n < bound) × Decreasing n table

-- The counter counts at most `k` values, modulo 2 ^ 32.
record Counted (k : ℕ) (n : Numbering) : Type 0 where
  count : ℕ
  at_most : count ≤ k
  wraps : n.counter ≡ count % 2 ^ 32
  decreasing : Decreasing count n.table

abbrev IsFresh : ℕ → Numbering → Type 0
IsFresh k n = k ≤ 2 ^ 32 → Counted k n

find_number-below :
    (bound a n : ℕ) (table : List (ℕ × ℕ))
    → Decreasing bound table
    → find_number a table ≡ some n
    → n < bound
unfolding find_number
find_number-below bound a n [] d h = cc
find_number-below bound a n ((b, m) ∷ table) d h = elim (Bool-cases (b == a)) [
  | inl e ↦ let same : m ≡ n = cc (rw e at h) in omega (arith, d.0)
  | inr e ↦ let below = find_number-below m a n table d.1 (rw e at h) in omega (arith, d.0)
]

find_number-injective :
    (bound a b n : ℕ) (table : List (ℕ × ℕ))
    → Decreasing bound table
    → find_number a table ≡ some n
    → find_number b table ≡ some n
    → a ≡ b
unfolding find_number
find_number-injective bound a b n [] d h k = cc
find_number-injective bound a b n ((c, m) ∷ table) d h k = elim (Bool-cases (c == a)) [
  | inl e ↦ elim (Bool-cases (c == b)) [
    | inl e' ↦ sym ((==_iff c a).0 e) ∙ (==_iff c b).0 e'
    | inr e' ↦
        let same : m ≡ n = cc (rw e at h) in
        let below = find_number-below m b n table d.1 (rw e' at k) in omega arith
  ]
  | inr e ↦ elim (Bool-cases (c == b)) [
    | inl e' ↦
        let same : m ≡ n = cc (rw e' at k) in
        let below = find_number-below m a n table d.1 (rw e at h) in omega arith
    | inr e' ↦ find_number-injective m a b n table d.1 (rw e at h) (rw e' at k)
  ]
]

assign-IsFresh : (k : ℕ) (n : Numbering) (v : Value) → IsFresh k n → IsFresh (k + 1) (assign n v)
unfolding assign
assign-IsFresh k n v h fits =
    let c = h (omega arith) in
    let below : n.counter ≡ c.count = omega (arith, c.at_most, c.wraps) in
    record {
      count = c.count + 1;
      at_most = omega (arith, c.at_most);
      wraps = omega (arith, c.at_most);
      decreasing = (omega arith, subst (λ b. Decreasing b n.table) (sym below) c.decreasing);
    }

weaken : (k : ℕ) (n : Numbering) → IsFresh k n → IsFresh (k + 1) n
weaken k n h fits =
    let c = h (omega arith) in
    record {
      count = c.count;
      at_most = omega (arith, c.at_most);
      wraps = c.wraps;
      decreasing = c.decreasing;
    }

-- In the numbering of a function with at most 2 ^ 32 parameters, blocks and instructions, values
-- that have the same number are the same value (have the same address).
pub compute_numbering-injective :
    (f : Function) (a b n : ℕ)
    → function_values f ≤ 2 ^ 32
    → find_number a (compute_numbering f) ≡ some n
    → find_number b (compute_numbering f) ≡ some n
    → a ≡ b
unfolding compute_numbering
compute_numbering-injective f a b n fits h k =
    let counted =
      number_function-Counts IsFresh weaken assign-IsFresh f
        (λ z. record { count = 0; at_most = omega arith; wraps = refl; decreasing = tt }) fits in
    find_number-injective _ a b n _ counted.decreasing h k
