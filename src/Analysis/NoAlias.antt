-- ===== src/Analysis/NoAlias.antt =====
-- src/PointerAnalysis.cpp, `alias`: when the answer is that two pointers do not alias.
use cclyzerpp.Prelude.{
  ℕ, Text, text_eq, text_eq_sound, text_eq_refl, Bool, true, false, ◌&&◌, ◌==◌, ==_iff, List, [],
  ◌∷◌, ◌≡◌, ◌≢◌, refl, sym, ◌⊎◌, inl, inr, ◌↔◌, Occurs, Bool-cases, subst,
}
use cclyzerpp.Analysis.{
  AliasResult, no_alias, VarPointsTo, has_text, insert_if, shares_target, alias_query,
}

-- A row says that the pointer points to the allocation.
abbrev pub PointsTo : List VarPointsTo → ℕ → Text → Type 0
PointsTo [] p t = ⊥
PointsTo (row ∷ rows) p t = ((row.from ≡ p) × (t ≡ row.target)) ⊎ PointsTo rows p t

-- The allocation is in the set already, or a row will put it there.
abbrev Reaches : List Text → List VarPointsTo → ℕ → Text → Type 0
Reaches ts rows p t = Occurs t ts ⊎ PointsTo rows p t

has_text_sound : (t : Text) (us : List Text) → has_text t us ≡ true → Occurs t us
unfolding has_text
has_text_sound t [] h = cc
has_text_sound t (u ∷ us) h = elim (Bool-cases (text_eq u t)) [
  | inl e ↦ inl (sym (text_eq_sound u t e))
  | inr e ↦ inr (has_text_sound t us (rw e at h))
]

has_text_complete : (t : Text) (us : List Text) → Occurs t us → has_text t us ≡ true
unfolding has_text
has_text_complete t [] m = absurd m
has_text_complete t (u ∷ us) (inl e) = rw (e, text_eq_refl u) refl
has_text_complete t (u ∷ us) (inr m) = elim (Bool-cases (text_eq u t)) [
  | inl e ↦ rw e refl
  | inr e ↦ rw e (has_text_complete t us m)
]

-- A row before the others: what is in the grown set, or in a later row.
Reaches-grown :
    (ts : List Text) (row : VarPointsTo) (rows : List VarPointsTo) (p : ℕ) (t : Text)
    → Reaches ts (row ∷ rows) p t ↔ Reaches (insert_if (row.from == p) row.target ts) rows p t
unfolding insert_if
Reaches-grown ts row rows p t = elim (Bool-cases (row.from == p)) [
  | inl e ↦ rw e (
      (
        λ r. elim r [
          | inl m ↦ inl (inr m)
          | inr (inl (f, same)) ↦ inl (inl same)
          | inr (inr m) ↦ inr m
        ],
        λ r. elim r [
          | inl (inl same) ↦ inr (inl ((==_iff row.from p).0 e, same))
          | inl (inr m) ↦ inl m
          | inr m ↦ inr (inr m)
        ],
      ))
  | inr e ↦ rw e (
      (
        λ r. elim r [
          | inl m ↦ inl m
          | inr (inl (f, same)) ↦ cc (e, (==_iff row.from p).1 f)
          | inr (inr m) ↦ inr m
        ],
        λ r. elim r [ inl m ↦ inl m | inr m ↦ inr (inr m) ],
      ))
]

insert_if-cases :
    (c : Bool) (u x : Text) (ts : List Text)
    → Occurs u (insert_if c x ts)
    → ((c ≡ true) × (u ≡ x)) ⊎ Occurs u ts
unfolding insert_if
insert_if-cases true u x ts (inl e) = inl (refl, e)
insert_if-cases true u x ts (inr m) = inr m
insert_if-cases false u x ts m = inr m

abbrev Disjoint : List Text → List Text → Type 0
Disjoint a b = (u : Text) → Occurs u a → Occurs u b → ⊥

-- A guard that fails on a set excludes the text from it.
excluded :
    (c : Bool) (u x : Text) (ts : List Text)
    → (c && has_text x ts) ≡ false
    → c ≡ true
    → u ≡ x
    → Occurs u ts
    → ⊥
excluded true u x ts h e same m =
    let there : has_text x ts ≡ true = has_text_complete x ts (subst (λ v. Occurs v ts) same m) in
    cc
excluded false u x ts h e same m = cc

-- Sets stay disjoint where neither early return is taken.
Disjoint-grown :
    (c d : Bool) (x : Text) (a b : List Text)
    → (c && has_text x b) ≡ false
    → (d && has_text x (insert_if c x a)) ≡ false
    → Disjoint a b
    → Disjoint (insert_if c x a) (insert_if d x b)
Disjoint-grown c d x a b h k apart u m m' = elim (insert_if-cases d u x b m') [
  | inl (e, same) ↦ excluded d u x (insert_if c x a) k e same m
  | inr old' ↦ elim (insert_if-cases c u x a m) [
    | inl (e, same) ↦ excluded c u x b h e same old'
    | inr old ↦ apart u old old'
  ]
]

module _ (p q : ℕ) where
  shares_target_sound :
      (rows : List VarPointsTo) (a b : List Text)
      → shares_target p q rows a b ≡ true
      → (t : Text) × Reaches a rows p t × Reaches b rows q t
  unfolding shares_target
  shares_target_sound [] a b h = cc
  shares_target_sound (row ∷ rows) a b h =
      elim (Bool-cases ((row.from == p) && has_text row.target b)) [
        | inl e ↦
            let (is_p, has) = both _ _ e in
            (row.target, inr (inl ((==_iff row.from p).0 is_p, refl)), inl (has_text_sound _ b has))
        | inr e ↦
            elim (Bool-cases
              ((row.from == q) && has_text row.target (insert_if (row.from == p) row.target a))) [
                | inl e' ↦
                    let (is_q, has) = both _ _ e' in
                    (
                      row.target,
                      (Reaches-grown a row rows p row.target).1 (inl (has_text_sound _ _ has)),
                      inr (inl ((==_iff row.from q).0 is_q, refl)),
                    )
                | inr e' ↦
                    let (t, r, s) = shares_target_sound rows _ _ (rw (e, e') at h) in
                    (t, (Reaches-grown a row rows p t).1 r, (Reaches-grown b row rows q t).1 s)
              ]
      ]
    where
      both : (c d : Bool) → (c && d) ≡ true → (c ≡ true) × (d ≡ true)
      both true true h = (refl, refl)
      both true false h = cc
      both false d h = cc

  shares_target_complete :
      (rows : List VarPointsTo) (a b : List Text) (t : Text)
      → Disjoint a b
      → Reaches a rows p t
      → Reaches b rows q t
      → shares_target p q rows a b ≡ true
  unfolding shares_target
  shares_target_complete [] a b t apart (inl m) (inl m') = absurd (apart t m m')
  shares_target_complete [] a b t apart (inl m) (inr m') = absurd m'
  shares_target_complete [] a b t apart (inr m) r = absurd m
  shares_target_complete (row ∷ rows) a b t apart r s =
      elim (Bool-cases ((row.from == p) && has_text row.target b)) [
        | inl e ↦ rw e refl
        | inr e ↦
            elim (Bool-cases
              ((row.from == q) && has_text row.target (insert_if (row.from == p) row.target a))) [
                | inl e' ↦ rw (e, e') refl
                | inr e' ↦
                    rw (e, e')
                      (shares_target_complete rows _ _ t
                        (Disjoint-grown _ _ row.target a b e e' apart)
                        ((Reaches-grown a row rows p t).0 r) ((Reaches-grown b row rows q t).0 s))
              ]
      ]

-- Where the base class does not answer so itself, the answer is that two pointers do not alias
-- exactly when they are different and point to no common allocation.
pub alias_query-no_alias_iff :
    (base : AliasResult) (rows : List VarPointsTo) (p q : ℕ)
    → base ≢ no_alias
    → (alias_query base rows p q ≡ no_alias)
      ↔ ((p ≢ q) × ¬ ((t : Text) × PointsTo rows p t × PointsTo rows q t))
unfolding alias_query
alias_query-no_alias_iff base rows p q n = elim (Bool-cases (p == q)) [
  | inl e ↦ rw e (λ h. cc, λ h. absurd (h.0 ((==_iff p q).0 e)))
  | inr e ↦ elim (Bool-cases (shares_target p q rows [] [])) [
    | inl e' ↦
        let (t, r, s) = shares_target_sound p q rows [] [] e' in
        rw (e, e') (λ h. absurd (n h), λ h. absurd (h.1 (t, seen p t r, seen q t s)))
    | inr e' ↦
        rw (e, e')
          (
            λ h. (
              λ same. cc (e, (==_iff p q).1 same),
              λ c.
                  cc (
                    e',
                    shares_target_complete p q rows [] [] c.0 (λ u m m'. m) (inr c.1) (inr c.2),
                  ),
            ),
            λ h. refl,
          )
  ]
]
  where
    seen : (r : ℕ) (t : Text) → Reaches [] rows r t → PointsTo rows r t
    seen r t (inl m) = absurd m
    seen r t (inr m) = m
