-- ===== src/Refmode/Bounds.antt =====
-- FactGenerator/src/RefmodeEngineImpl.cpp, `computeNumbering`: the numbers are below the number of
-- values that can be numbered, and fit in an `unsigned`.
use cclyzerpp.Prelude.{
  ℕ, ◌+◌, ◌≤◌, ◌<◌, ◌^◌, none, some, List, [], ◌∷◌, ◌≡◌, ap, All, Bool-cases, inl, inr, arith, ◌==◌,
  subst,
}
use cclyzerpp.Ir.{Value, Function}
use cclyzerpp.Refmode.Numbering.{Numbering, assign, compute_numbering, find_number}
use cclyzerpp.Refmode.Counting.{function_values, number_function-Counts}

-- The numbers given to at most `k` values, and the counter, which may have wrapped.
record IsBelow (k : ℕ) (n : Numbering) : Type 0 where
  below : All (λ e. (e.1 < k) × (e.1 < 2 ^ 32)) n.table
  counted : n.counter ≤ k
  fits : n.counter < 2 ^ 32

All-weaken :
    (k : ℕ) (table : List (ℕ × ℕ))
    → All (λ e. (e.1 < k) × (e.1 < 2 ^ 32)) table
    → All (λ e. (e.1 < k + 1) × (e.1 < 2 ^ 32)) table
All-weaken k [] t = tt
All-weaken k (e ∷ table) ((l, w), t) = ((omega arith, w), All-weaken k table t)

assign-IsBelow : (k : ℕ) (n : Numbering) (v : Value) → IsBelow k n → IsBelow (k + 1) (assign n v)
unfolding assign
assign-IsBelow k n v h = record {
  below = ((omega (arith, h.counted), h.fits), All-weaken k n.table h.below);
  counted = omega (arith, h.counted);
  fits = omega arith;
}

weaken : (k : ℕ) (n : Numbering) → IsBelow k n → IsBelow (k + 1) n
weaken k n h = record {
  below = All-weaken k n.table h.below;
  counted = omega (arith, h.counted);
  fits = h.fits;
}

find_number-All :
    (P : ℕ → Type 0) (a n : ℕ) (table : List (ℕ × ℕ))
    → All (λ e. P e.1) table
    → find_number a table ≡ some n
    → P n
unfolding find_number
find_number-All P a n [] h e = cc
find_number-All P a n ((b, m) ∷ table) (l, t) e = elim (Bool-cases (b == a)) [
  | inl same ↦ subst P (ap (λ o. elim o [ none ↦ m | some c ↦ c ]) (rw (same, find_number) at e)) l
  | inr other ↦ find_number-All P a n table t (rw (other, find_number) at e)
]

-- In the numbering of a function, each number is below the number of its parameters, blocks and
-- instructions, and below 2 ^ 32.
pub compute_numbering-below :
    (f : Function) (a n : ℕ)
    → find_number a (compute_numbering f) ≡ some n
    → (n < function_values f) × (n < 2 ^ 32)
unfolding compute_numbering
compute_numbering-below f a n e =
    find_number-All (λ m. (m < function_values f) × (m < 2 ^ 32)) a n _
      (number_function-Counts IsBelow weaken assign-IsBelow f
        (record { below = tt; counted = omega arith; fits = omega arith })).below
      e
