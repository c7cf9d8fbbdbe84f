-- ===== src/Analysis/Meaning.antt =====
-- src/PointerAnalysis.cpp: what the result of the pass says, in terms of the rows that Souffle
-- computed.
use cclyzerpp.Prelude.{
  ℕ, Text, text, Option, some, List, [], ◌∷◌, ◌≡◌, ◌≢◌, refl, sym, ap, ◌∙◌, subst, ◌↔◌, inl, inr,
  Occurs, map,
}
use cclyzerpp.Gen.{ℤ}
use cclyzerpp.Analysis.{AliasResult, no_alias, alias_query}
use cclyzerpp.Analysis.NoAlias.{PointsTo, alias_query-no_alias_iff}
use cclyzerpp.Analysis.Relations.{Variant, callgraph_edge, var_points_to}
use cclyzerpp.Analysis.Rows.{Checked, answer, failed, Column, Cells, Reader}
use cclyzerpp.Analysis.Reading.{
  RowDenotes, RelationDenotes, extract_row_complete, relation_to_vector-answer_iff,
}
use cclyzerpp.Analysis.Results.{
  callgraph_columns, variable_columns, PointerAnalysisAaResult, var_points_to_row, get_vector,
  convert, read_results,
}
use cclyzerpp.Analysis.ReadFrom.{read_results-IsReadFrom}
use cclyzerpp.Analysis.Members.{
  variable_cells, callgraph_cells, Targets, PointsTo-Targets, Targets-PointsTo,
  null_pointers-Occurs, call_graph_of-Occurs,
}

answer_value : {A : Type 0} → A → Checked A → A
answer_value a (answer b) = b
answer_value a (failed e) = a

answer-injective : {A : Type 0} (a b : A) → answer a ≡ answer b → a ≡ b
unfolding answer_value
answer-injective a b e = ap (answer_value a) e

module _ {Row : Type 0} (reader : Reader Row) (llvm_val_map : List (Text × ℕ)) where
  -- Some row of the relation stands for the tuple.
  abbrev pub Stands : (cs : List Column) → List Row → Cells cs → Type 0
  Stands cs rows ts = (row : Row) × Occurs row rows × RowDenotes reader llvm_val_map cs row ts

  RowDenotes-unique :
      (cs : List Column) (row : Row) (ts us : Cells cs)
      → RowDenotes reader llvm_val_map cs row ts
      → RowDenotes reader llvm_val_map cs row us
      → ts ≡ us
  RowDenotes-unique cs row ts us h k = answer-injective ts us (
      sym (extract_row_complete reader llvm_val_map cs row ts h)
      ∙ extract_row_complete reader llvm_val_map cs row us k)

  Occurs-Stands :
      (cs : List Column) (rows : List Row) (vec : List (Cells cs)) (ts : Cells cs)
      → RelationDenotes reader llvm_val_map cs rows vec
      → Occurs ts vec
      → Stands cs rows ts
  Occurs-Stands cs [] [] ts h o = absurd o
  Occurs-Stands cs [] (u ∷ us) ts h o = absurd h
  Occurs-Stands cs (row ∷ rows) [] ts h o = absurd h
  Occurs-Stands cs (row ∷ rows) (u ∷ us) ts h (inl e) =
      (row, inl refl, subst (RowDenotes reader llvm_val_map cs row) (sym e) h.0)
  Occurs-Stands cs (row ∷ rows) (u ∷ us) ts h (inr o) =
      let (r, m, d) = Occurs-Stands cs rows us ts h.1 o in (r, inr m, d)

  Stands-Occurs :
      (cs : List Column) (rows : List Row) (vec : List (Cells cs)) (ts : Cells cs) (row : Row)
      → RelationDenotes reader llvm_val_map cs rows vec
      → Occurs row rows
      → RowDenotes reader llvm_val_map cs row ts
      → Occurs ts vec
  Stands-Occurs cs [] vec ts r h o d = absurd o
  Stands-Occurs cs (row ∷ rows) [] ts r h o d = absurd h
  Stands-Occurs cs (row ∷ rows) (u ∷ us) ts r h (inl e) d =
      inl (
        RowDenotes-unique cs row ts u (subst (λ s. RowDenotes reader llvm_val_map cs s ts) e d) h.0)
  Stands-Occurs cs (row ∷ rows) (u ∷ us) ts r h (inr o) d =
      inr (Stands-Occurs cs rows us ts r h.1 o d)

  -- A row of the relation says that the pointer points to the allocation, in some contexts.
  abbrev pub PointsAt : List Row → ℕ → Text → Type 0
  PointsAt rows p t = (c : ℤ) × (d : ℤ) × Stands variable_columns rows (variable_cells c t d p)

  -- The results of the pass, for the relations of a program.
  module _ (get_relation : Text → Option (List Row)) (which : Variant) (r : PointerAnalysisAaResult)
      (rows : List Row)
      (read : read_results reader get_relation llvm_val_map which ≡ answer r) where
    vector-Denotes :
        (cs : List Column) (name : Text) (vec : List (Cells cs))
        → get_relation name ≡ some rows
        → get_vector reader get_relation llvm_val_map cs name ≡ answer vec
        → RelationDenotes reader llvm_val_map cs rows vec
    unfolding get_vector convert
    vector-Denotes cs name vec e h =
        (relation_to_vector-answer_iff reader llvm_val_map cs rows vec).0
          (subst (λ o. convert reader get_relation llvm_val_map cs o ≡ answer vec) e h)

    Targets-PointsAt :
        (vec : List (Cells variable_columns)) (p : ℕ) (t : Text)
        → RelationDenotes reader llvm_val_map variable_columns rows vec
        → Targets vec p t ↔ PointsAt rows p t
    Targets-PointsAt vec p t h = (
      λ (c, d, o). (c, d, Occurs-Stands variable_columns rows vec _ h o),
      λ (c, d, (row, m, k)). (c, d, Stands-Occurs variable_columns rows vec _ row h m k),
    )

    -- A value is in the set of null pointers exactly when some row of the points-to relation says
    -- that it points to `*null*`, if the pass has read its results.
    pub null_ptr_set-PointsAt :
        (v : ℕ)
        → get_relation (var_points_to which) ≡ some rows
        → Occurs v r.null_ptr_set ↔ PointsAt rows v (text "*null*")
    null_ptr_set-PointsAt v e =
        let (vec, h, _, null) =
          (read_results-IsReadFrom reader get_relation llvm_val_map which r read).variables in
        let means =
          Targets-PointsAt vec v (text "*null*") (vector-Denotes variable_columns _ vec e h) in
        let set = null_pointers-Occurs vec [] v in
        (
          λ o. elim (set.0 (subst (Occurs v) null o)) [ inl m ↦ absurd m | inr t ↦ means.0 t ],
          λ p. subst (Occurs v) (sym null) (set.1 (inr (means.1 p))),
        )

    -- The call graph has an edge from a caller to a callee, in given contexts, exactly when some row
    -- of the relation of call graph edges says so, if the pass has read its results.
    pub callgraph-Stands :
        (caller callee : ℕ) (caller_ctx callee_ctx : ℤ)
        → get_relation (callgraph_edge which) ≡ some rows
        → Occurs (caller, caller_ctx, callee_ctx, callee) r.callgraph
          ↔ Stands callgraph_columns rows (callgraph_cells callee_ctx callee caller_ctx caller)
    callgraph-Stands caller callee c d e =
        let (vec, h, graph) =
          (read_results-IsReadFrom reader get_relation llvm_val_map which r read).calls in
        let denotes = vector-Denotes callgraph_columns _ vec e h in
        let edges = call_graph_of-Occurs vec [] caller callee c d in
        (
          λ o. elim (edges.0 (subst (Occurs (caller, c, d, callee)) graph o)) [
            | inl m ↦ absurd m
            | inr m ↦ Occurs-Stands callgraph_columns rows vec _ denotes m
          ],
          λ (row, m, k).
              subst (Occurs (caller, c, d, callee)) (sym graph)
                (edges.1 (inr (Stands-Occurs callgraph_columns rows vec _ row denotes m k))),
        )

    -- With the results of the pass, and where the base class does not answer so itself, two pointers
    -- do not alias exactly when they are different and no two rows of the points-to relation say
    -- that they point to the same allocation.
    pub alias_query-PointsAt :
        (base : AliasResult) (p q : ℕ)
        → get_relation (var_points_to which) ≡ some rows
        → base ≢ no_alias
        → (alias_query base r.variable_points_to p q ≡ no_alias)
          ↔ ((p ≢ q) × ¬ ((t : Text) × PointsAt rows p t × PointsAt rows q t))
    alias_query-PointsAt base p q e n =
        let (vec, h, points, _) =
          (read_results-IsReadFrom reader get_relation llvm_val_map which r read).variables in
        let denotes = vector-Denotes variable_columns _ vec e h in
        let into : (s : ℕ) (t : Text)
            → PointsAt rows s t
            → PointsTo (map var_points_to_row vec) s t =
          λ s t k.
            let (c, d, o) = (Targets-PointsAt vec s t denotes).1 k in
            Targets-PointsTo vec s t c d o in
        let out : (s : ℕ) (t : Text)
            → PointsTo (map var_points_to_row vec) s t
            → PointsAt rows s t =
          λ s t k. (Targets-PointsAt vec s t denotes).0 (PointsTo-Targets vec s t k) in
        let query = alias_query-no_alias_iff base (map var_points_to_row vec) p q n in
        rw points (
          λ a. let (d, s) = query.0 a in (d, λ (t, k, l). s (t, into p t k, into q t l)),
          λ (d, s). query.1 (d, λ (t, k, l). s (t, out p t k, out q t l)),
        )
