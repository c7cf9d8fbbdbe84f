-- ===== src/Refmode/Counting.antt =====
-- FactGenerator/src/RefmodeEngineImpl.cpp, `computeNumbering`: what holds of the counter after each
-- value that is passed holds at the end, when all are counted.
use mathlib.Core.List.{foldl}
use cclyzerpp.Prelude.{ℕ, ◌+◌, ◌||◌, List, [], ◌∷◌, Bool-cases, inl, inr, arith, subst}
use cclyzerpp.Ir.{Value, header, Instruction, Block, Function}
use cclyzerpp.Refmode.Numbering.{
  Numbering, has_name, assign, number_value, number_instruction, number_block, number_function,
}

-- What one step counts, summed over a list.
abbrev total : {A : Type 0} → (A → ℕ) → List A → ℕ
total size [] = 0
total size (x ∷ xs) = size x + total size xs

abbrev one : {A : Type 0} → A → ℕ
one x = 1

-- A block's value and its instructions.
abbrev pub block_values : Block → ℕ
block_values b = 1 + total one b.instructions

-- The values of a function that may have a number.
abbrev pub function_values : Function → ℕ
function_values f = total one f.args + total block_values f.blocks

module _ (P : ℕ → Numbering → Type 0) (weaken : (k : ℕ) (n : Numbering) → P k n → P (k + 1) n)
    (count : (k : ℕ) (n : Numbering) (v : Value) → P k n → P (k + 1) (assign n v)) where
  number_value-Counts : (k : ℕ) (n : Numbering) (v : Value) → P k n → P (k + 1) (number_value n v)
  unfolding number_value
  number_value-Counts k n v h = elim (Bool-cases (has_name v)) [
    | inl e ↦ rw e (weaken k n h)
    | inr e ↦ rw e (count k n v h)
  ]

  number_instruction-Counts :
      (k : ℕ) (n : Numbering) (i : Instruction) → P k n → P (k + 1) (number_instruction n i)
  unfolding number_instruction
  number_instruction-Counts k n i h =
      elim (Bool-cases (has_name i.value || (header i.value).type.is_void)) [
        | inl e ↦ rw e (weaken k n h)
        | inr e ↦ rw e (count k n i.value h)
      ]

  foldl-Counts :
      {A : Type 0} (size : A → ℕ) (step : Numbering → A → Numbering)
      → ((k : ℕ) (n : Numbering) (a : A) → P k n → P (k + size a) (step n a))
      → (xs : List A) (k : ℕ) (n : Numbering) → P k n
      → P (k + total size xs) (foldl step n xs)
  foldl-Counts size step h [] k n b = subst (λ j. P j n) (omega arith) b
  foldl-Counts size step h (x ∷ xs) k n b =
      subst (λ j. P j (foldl step n (x ∷ xs))) (omega arith)
        (foldl-Counts size step h xs (k + size x) (step n x) (h k n x b))

  number_block-Counts :
      (k : ℕ) (n : Numbering) (b : Block) → P k n → P (k + block_values b) (number_block n b)
  unfolding number_block
  number_block-Counts k n b h =
      subst (λ j. P j (number_block n b)) (omega arith)
        (foldl-Counts one number_instruction number_instruction-Counts b.instructions (k + 1)
          (number_value n b.value) (number_value-Counts k n b.value h))

  pub number_function-Counts :
      (f : Function)
      → P 0 (record { counter = 0; table = [] })
      → P (function_values f) (number_function f)
  unfolding number_function
  number_function-Counts f h =
      foldl-Counts block_values number_block number_block-Counts f.blocks (total one f.args) _ (
        subst (λ j. P j (foldl number_value (record { counter = 0; table = [] }) f.args))
          (omega arith) (foldl-Counts one number_value number_value-Counts f.args 0 _ h))
