-- ===== src/Analysis/ReadFrom.antt =====
-- src/PointerAnalysis.cpp, `runOnModule`: which relation each part of the result is read from.
use cclyzerpp.Prelude.{ℕ, Text, text, Option, List, [], ◌≡◌, refl, subst, map}
use cclyzerpp.Analysis.Relations.{
  Variant, callgraph_edge, alloc_may_alias, alloc_must_alias, alloc_subregion, alloc_contains,
  ptr_points_to, operand_points_to, var_points_to, allocation_size, allocation_by_instr,
}
use cclyzerpp.Analysis.Rows.{Checked, answer, failed, ◌>>=◌, Column, Cells, Reader}
use cclyzerpp.Analysis.Results.{
  context_columns, callgraph_columns, variable_columns, pair_columns, pointer_columns,
  global_columns, size_columns, site_columns, PointerAnalysisAaResult, contexts_of, call_graph_of,
  null_pointers, var_points_to_row, get_vector, read_results,
}

-- The property of the answer, if there is one.
abbrev Ensures : {A : Type 0} → (A → Type 0) → Checked A → Type 0
Ensures P (answer a) = P a
Ensures P (failed e) = Unit

Ensures-run :
    {A B : Type 0} (Q : B → Type 0) (m : Checked A) (f : A → Checked B)
    → ((a : A) → m ≡ answer a → Ensures Q (f a))
    → Ensures Q (m >>= f)
unfolding ◌>>=◌
Ensures-run Q (answer a) f k = k a refl
Ensures-run Q (failed e) f k = tt

module _ {Row : Type 0} (reader : Reader Row) (get_relation : Text → Option (List Row))
    (llvm_val_map : List (Text × ℕ)) (which : Variant) where
  -- The vector of a relation.
  abbrev pub Vector : (cs : List Column) → Text → List (Cells cs) → Type 0
  Vector cs name vec = get_vector reader get_relation llvm_val_map cs name ≡ answer vec

  -- Each part of a result is the vector of its relation, or is computed from it.
  pub record IsReadFrom (r : PointerAnalysisAaResult) : Type 0 where
    pub contexts :
        (vec : List (Cells context_columns)) × Vector context_columns (text "context_to_string") vec
        × (r.context_to_string ≡ contexts_of vec [])
    pub calls :
        (vec : List (Cells callgraph_columns)) × Vector callgraph_columns (callgraph_edge which) vec
        × (r.callgraph ≡ call_graph_of vec [])
    pub variables :
        (vec : List (Cells variable_columns)) × Vector variable_columns (var_points_to which) vec
        × (r.variable_points_to ≡ map var_points_to_row vec)
        × (r.null_ptr_set ≡ null_pointers vec [])
    pub may_alias : Vector pair_columns (alloc_may_alias which) r.may_alias
    pub must_alias : Vector pair_columns (alloc_must_alias which) r.must_alias
    pub subregion : Vector pair_columns (alloc_subregion which) r.subregion
    pub contains : Vector pair_columns (alloc_contains which) r.contains
    pub pointers : Vector pointer_columns (ptr_points_to which) r.pointer_points_to
    pub operands : Vector variable_columns (operand_points_to which) r.operands
    pub globals : Vector global_columns (text "global_allocation_by_variable") r.global_allocations
    pub sizes : Vector size_columns (allocation_size which) r.allocation_sizes
    pub sites : Vector site_columns (allocation_by_instr which) r.allocation_sites

  -- The record that ends the conversion.
  parts-IsReadFrom :
      {contexts : List (Cells context_columns)} {calls : List (Cells callgraph_columns)}
      {variables : List (Cells variable_columns)} {may : List (Cells pair_columns)}
      {must : List (Cells pair_columns)} {sub : List (Cells pair_columns)}
      {con : List (Cells pair_columns)} {pointers : List (Cells pointer_columns)}
      {operands : List (Cells variable_columns)} {globals : List (Cells global_columns)}
      {sizes : List (Cells size_columns)} {sites : List (Cells site_columns)}
      → Vector context_columns (text "context_to_string") contexts
      → Vector callgraph_columns (callgraph_edge which) calls
      → Vector variable_columns (var_points_to which) variables
      → Vector pair_columns (alloc_may_alias which) may
      → Vector pair_columns (alloc_must_alias which) must
      → Vector pair_columns (alloc_subregion which) sub
      → Vector pair_columns (alloc_contains which) con
      → Vector pointer_columns (ptr_points_to which) pointers
      → Vector variable_columns (operand_points_to which) operands
      → Vector global_columns (text "global_allocation_by_variable") globals
      → Vector size_columns (allocation_size which) sizes
      → Vector site_columns (allocation_by_instr which) sites
      → IsReadFrom (record {
        context_to_string = contexts_of contexts [];
        variable_points_to = map var_points_to_row variables;
        may_alias = may;
        must_alias = must;
        subregion = sub;
        contains = con;
        pointer_points_to = pointers;
        operands = operands;
        global_allocations = globals;
        allocation_sizes = sizes;
        allocation_sites = sites;
        null_ptr_set = null_pointers variables [];
        callgraph = call_graph_of calls [];
      })
  parts-IsReadFrom h1 h2 h3 h4 h5 h6 h7 h8 h9 h10 h11 h12 = record {
    contexts = (_, h1, refl);
    calls = (_, h2, refl);
    variables = (_, h3, refl, refl);
    may_alias = h4;
    must_alias = h5;
    subregion = h6;
    contains = h7;
    pointers = h8;
    operands = h9;
    globals = h10;
    sizes = h11;
    sites = h12;
  }

  read_results-Ensures : Ensures IsReadFrom (read_results reader get_relation llvm_val_map which)
  unfolding read_results
  read_results-Ensures = Ensures-run IsReadFrom _ _ λ contexts h1.
      Ensures-run IsReadFrom _ _ λ calls h2. Ensures-run IsReadFrom _ _ λ variables h3.
        Ensures-run IsReadFrom _ _ λ may h4. Ensures-run IsReadFrom _ _ λ must h5.
          Ensures-run IsReadFrom _ _ λ sub h6. Ensures-run IsReadFrom _ _ λ con h7.
            Ensures-run IsReadFrom _ _ λ pointers h8. Ensures-run IsReadFrom _ _ λ operands h9.
              Ensures-run IsReadFrom _ _ λ globals h10. Ensures-run IsReadFrom _ _ λ sizes h11.
                Ensures-run IsReadFrom _ _
                  λ sites h12. parts-IsReadFrom h1 h2 h3 h4 h5 h6 h7 h8 h9 h10 h11 h12

  -- When the conversion of the relations answers a result, each part of it is the vector of its
  -- relation, or is computed from that vector.
  pub read_results-IsReadFrom :
      (r : PointerAnalysisAaResult)
      → read_results reader get_relation llvm_val_map which ≡ answer r
      → IsReadFrom r
  read_results-IsReadFrom r e = subst (Ensures IsReadFrom) e read_results-Ensures
