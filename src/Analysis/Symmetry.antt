-- ===== src/Analysis/Symmetry.antt =====
-- src/PointerAnalysis.cpp, `alias`: the loop is not symmetric in the two pointers, its answer is.
use cclyzerpp.Prelude.{
  ℕ, Bool, true, false, ◌==◌, ==_iff, List, [], ◌≡◌, ◌≢◌, refl, sym, inl, inr, Bool-cases,
}
use cclyzerpp.Analysis.{AliasResult, no_alias, VarPointsTo, shares_target, alias_query}
use cclyzerpp.Analysis.NoAlias.{alias_query-no_alias_iff}

test_swap : (p q : ℕ) (b : Bool) → (p == q) ≡ b → (q == p) ≡ b
test_swap p q true e = (==_iff q p).1 (sym ((==_iff p q).0 e))
test_swap p q false e = elim (Bool-cases (q == p)) [
  | inl h ↦ cc (e, (==_iff p q).1 (sym ((==_iff q p).0 h)))
  | inr h ↦ h
]

no_alias_swap :
    (base : AliasResult) (rows : List VarPointsTo) (p q : ℕ)
    → base ≢ no_alias
    → alias_query base rows p q ≡ no_alias
    → alias_query base rows q p ≡ no_alias
no_alias_swap base rows p q n h =
    let (different, apart) = (alias_query-no_alias_iff base rows p q n).0 h in
    (alias_query-no_alias_iff base rows q p n).1
      (λ e. different (sym e), λ (t, a, b). apart (t, b, a))

found_not_no_alias :
    (base : AliasResult) (rows : List VarPointsTo) (p q : ℕ)
    → base ≢ no_alias
    → (p == q) ≡ false
    → shares_target p q rows [] [] ≡ false
    → shares_target q p rows [] [] ≡ false
unfolding alias_query
found_not_no_alias base rows p q n e h = elim (Bool-cases (shares_target q p rows [] [])) [
  | inr k ↦ k
  | inl k ↦ absurd (
      n (
        rw (alias_query, test_swap p q false e, k) at
          (no_alias_swap base rows p q n (rw (alias_query, e, h) refl))))
]

symmetric :
    (base : AliasResult) (rows : List VarPointsTo) (p q : ℕ)
    → base ≢ no_alias
    → alias_query base rows p q ≡ alias_query base rows q p
unfolding alias_query
symmetric base rows p q n = elim (Bool-cases (p == q)) [
  | inl e ↦ rw (e, test_swap p q true e) refl
  | inr e ↦
      let e' = test_swap p q false e in
      elim (Bool-cases (shares_target p q rows [] [])) [
        | inr h ↦ rw (e, e', h, found_not_no_alias base rows p q n e h) refl
        | inl h ↦ elim (Bool-cases (shares_target q p rows [] [])) [
          | inl k ↦ rw (e, e', h, k) refl
          | inr k ↦ cc (found_not_no_alias base rows q p n e' k)
        ]
      ]
]

-- For one answer of the base class, the answer for two pointers does not depend on
-- their order.
pub alias_query-symmetric :
    (base : AliasResult) (rows : List VarPointsTo) (p q : ℕ)
    → alias_query base rows p q ≡ alias_query base rows q p
unfolding alias_query
alias_query-symmetric no_alias rows p q = elim (Bool-cases (p == q)) [
  | inl e ↦ rw (e, test_swap p q true e) refl
  | inr e ↦ elim (Bool-cases (shares_target p q rows [] [])) [
    | inl h ↦ elim (Bool-cases (shares_target q p rows [] [])) [
      | inl k ↦ rw (e, test_swap p q false e, h, k) refl
      | inr k ↦ rw (e, test_swap p q false e, h, k) refl
    ]
    | inr h ↦ elim (Bool-cases (shares_target q p rows [] [])) [
      | inl k ↦ rw (e, test_swap p q false e, h, k) refl
      | inr k ↦ rw (e, test_swap p q false e, h, k) refl
    ]
  ]
]
alias_query-symmetric base rows p q = symmetric base rows p q (λ e. cc)
