-- ===== src/Analysis.antt =====
-- src/PointerAnalysis.cpp: `PointerAnalysisAAResult::alias`, the alias query over the points-to
-- relation that the Datalog program computes. Values are pointers, that is, addresses.
pub mod Assertions
pub mod NoAlias
pub mod Symmetry
pub mod Relations
pub mod Rows
pub mod Results
pub mod Pass
pub mod Reading
pub mod ReadFrom
pub mod Members
pub mod Meaning
pub mod Stored
pub mod Answers
use cclyzerpp.Prelude.{
  ℕ, Text, text_eq, Bool, true, false, ◌&&◌, ◌==◌, List, [], ◌∷◌, if◌then◌else◌,
}
use cclyzerpp.Gen.{ℤ}

-- `llvm::AliasResult`
pub data AliasResult : Type 0 where
  no_alias may_alias partial_alias must_alias : AliasResult

-- A tuple of the relation `var_points_to`.
pub record VarPointsTo : Type 0 where
  pub alloc_context : ℤ
  pub target : Text
  pub pointer_context : ℤ
  pub from : ℕ

-- `set.find(to) != set.end()`
unfoldable pub has_text : Text → List Text → Bool
has_text t [] = false
has_text t (u ∷ us) = if text_eq u t then true else has_text t us

unfoldable pub insert_if : Bool → Text → List Text → List Text
insert_if true t ts = t ∷ ts
insert_if false t ts = ts

-- The loop over the relation, with the two sets: whether it is left early.
unfoldable pub shares_target : ℕ → ℕ → List VarPointsTo → List Text → List Text → Bool
unfolding has_text insert_if
shares_target p q [] points_to other_points_to = false
shares_target p q (row ∷ rows) points_to other_points_to =
    let points_to' = insert_if (row.from == p) row.target points_to in
    let rest =
      shares_target p q rows points_to' (insert_if (row.from == q) row.target other_points_to) in
    if (row.from == p) && has_text row.target other_points_to
    then true
    else if (row.from == q) && has_text row.target points_to'
    then true
    else rest

-- `alias`; the first argument is what `AAResultBase::alias` returns for the two locations.
unfoldable pub alias_query : AliasResult → List VarPointsTo → ℕ → ℕ → AliasResult
unfolding shares_target
alias_query base variable_points_to p q =
    if p == q
    then must_alias
    else if shares_target p q variable_points_to [] []
    then base
    else no_alias
