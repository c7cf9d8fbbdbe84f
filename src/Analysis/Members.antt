-- ===== src/Analysis/Members.antt =====
-- src/PointerAnalysis.cpp, `runOnModule`: what the loops over the rows of a relation collect.
use cclyzerpp.Prelude.{
  ℕ, Text, text, text_eq, text_eq_sound, text_eq_refl, true, ◌==◌, ==_iff, List, [], ◌∷◌, ◌≡◌, refl,
  sym, ap, ◌↔◌, ◌⊎◌, inl, inr, Occurs, Bool-cases, map, if◌then◌else◌,
}
use cclyzerpp.Gen.{ℤ}
use cclyzerpp.Analysis.NoAlias.{PointsTo}
use cclyzerpp.Analysis.Rows.{Cells}
use cclyzerpp.Analysis.Results.{
  callgraph_columns, variable_columns, call_graph_of, null_pointers, has_value, var_points_to_row,
}

abbrev pub variable_cells : ℤ → Text → ℤ → ℕ → Cells variable_columns
variable_cells alloc_ctx t pointer_ctx value = (alloc_ctx, (t, (pointer_ctx, (value, tt))))

abbrev pub callgraph_cells : ℤ → ℕ → ℤ → ℕ → Cells callgraph_columns
callgraph_cells callee_ctx callee caller_ctx caller =
    (callee_ctx, (callee, (caller_ctx, (caller, tt))))

-- The pointer points to the allocation, in some contexts.
abbrev pub Targets : List (Cells variable_columns) → ℕ → Text → Type 0
Targets vec p t = (c : ℤ) × (d : ℤ) × Occurs (variable_cells c t d p) vec

pub PointsTo-Targets :
    (vec : List (Cells variable_columns)) (p : ℕ) (t : Text)
    → PointsTo (map var_points_to_row vec) p t
    → Targets vec p t
PointsTo-Targets [] p t h = absurd h
PointsTo-Targets ((c, (u, (d, (v, _)))) ∷ vec) p t (inl (e, e')) = (c, d, inl (rw (sym e, e') refl))
PointsTo-Targets (_ ∷ vec) p t (inr h) = let (c, d, o) = PointsTo-Targets vec p t h in (c, d, inr o)

pub Targets-PointsTo :
    (vec : List (Cells variable_columns)) (p : ℕ) (t : Text) (c d : ℤ)
    → Occurs (variable_cells c t d p) vec
    → PointsTo (map var_points_to_row vec) p t
Targets-PointsTo [] p t c d o = absurd o
Targets-PointsTo ((a, (u, (b, (v, _)))) ∷ vec) p t c d (inl e) =
    inl (sym (ap (λ r. r.1.1.1.0) e), ap (λ r. r.1.0) e)
Targets-PointsTo (_ ∷ vec) p t c d (inr o) = inr (Targets-PointsTo vec p t c d o)

has_value_sound : (v : ℕ) (us : List ℕ) → has_value v us ≡ true → Occurs v us
unfolding has_value
has_value_sound v [] h = cc
has_value_sound v (u ∷ us) h = elim (Bool-cases (u == v)) [
  | inl e ↦ inl (sym ((==_iff u v).0 e))
  | inr e ↦ inr (has_value_sound v us (rw e at h))
]

-- What `null_ptr_set.emplace` makes of the set.
abbrev null_step : Text → ℕ → List ℕ → List ℕ
null_step t v set =
    if text_eq t (text "*null*") then if has_value v set then set else v ∷ set else set

null_step-Occurs :
    (t : Text) (w v : ℕ) (set : List ℕ)
    → Occurs v (null_step t w set) ↔ (Occurs v set ⊎ ((t ≡ text "*null*") × (v ≡ w)))
null_step-Occurs t w v set = elim (Bool-cases (text_eq t (text "*null*"))) [
  | inr e ↦ rw e (
    λ o. inl o,
    λ h. elim h [
      | inl o ↦ o
      | inr s ↦ cc (e, ap (λ u. text_eq u (text "*null*")) s.0, text_eq_refl (text "*null*"))
    ],
  )
  | inl e ↦ elim (Bool-cases (has_value w set)) [
    | inl e' ↦
        rw (e, e')
          (λ o. inl o, λ h. elim h [ inl o ↦ o | inr s ↦ rw s.1 (has_value_sound w set e') ])
    | inr e' ↦
        rw (e, e')
          (
            λ o. elim o [ inl s ↦ inr (text_eq_sound t (text "*null*") e, s) | inr m ↦ inl m ],
            λ h. elim h [ inl o ↦ inr o | inr s ↦ inl s.1 ],
          )
  ]
]

pub null_pointers-Occurs :
    (vec : List (Cells variable_columns)) (set : List ℕ) (v : ℕ)
    → Occurs v (null_pointers vec set) ↔ (Occurs v set ⊎ Targets vec v (text "*null*"))
unfolding null_pointers
null_pointers-Occurs [] set v = (λ o. inl o, λ h. elim h [ inl o ↦ o | inr t ↦ absurd t.2 ])
null_pointers-Occurs ((c, (t, (d, (w, _)))) ∷ vec) set v =
    let ih = null_pointers-Occurs vec (null_step t w set) v in
    let one = null_step-Occurs t w v set in
    (
      λ o. elim (ih.0 o) [
        | inl m ↦ elim (one.0 m) [ inl k ↦ inl k | inr s ↦ inr (c, d, inl (rw (s.0, s.1) refl)) ]
        | inr (a, b, k) ↦ inr (a, b, inr k)
      ],
      λ h. elim h [
        | inl k ↦ ih.1 (inl (one.1 (inl k)))
        | inr (a, b, inl e) ↦
            ih.1 (inl (one.1 (inr (sym (ap (λ r. r.1.0) e), ap (λ r. r.1.1.1.0) e))))
        | inr (a, b, inr k) ↦ ih.1 (inr (a, b, k))
      ],
    )

pub call_graph_of-Occurs :
    (vec : List (Cells callgraph_columns)) (graph : List (ℕ × ℤ × ℤ × ℕ)) (caller callee : ℕ)
    (caller_ctx callee_ctx : ℤ)
    → Occurs (caller, caller_ctx, callee_ctx, callee) (call_graph_of vec graph) ↔ (
        Occurs (caller, caller_ctx, callee_ctx, callee) graph
        ⊎ Occurs (callgraph_cells callee_ctx callee caller_ctx caller) vec)
unfolding call_graph_of
call_graph_of-Occurs [] graph r e c d = (λ o. inl o, λ h. elim h [ inl o ↦ o | inr t ↦ absurd t ])
call_graph_of-Occurs ((d', (e', (c', (r', _)))) ∷ vec) graph r e c d =
    let ih = call_graph_of-Occurs vec ((r', c', d', e') ∷ graph) r e c d in
    (
      λ o. elim (ih.0 o) [
        | inl (inl s) ↦ inr (inl (ap (λ q. callgraph_cells q.2 q.3 q.1 q.0) s))
        | inl (inr m) ↦ inl m
        | inr m ↦ inr (inr m)
      ],
      λ h. elim h [
        | inl k ↦ ih.1 (inl (inr k))
        | inr (inl s) ↦ ih.1 (inl (inl (ap (λ q. (q.1.1.1.0, q.1.1.0, q.0, q.1.0)) s)))
        | inr (inr k) ↦ ih.1 (inr k)
      ],
    )
