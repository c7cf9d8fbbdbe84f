-- ===== src/Analysis/Results.antt =====
-- src/PointerAnalysis.cpp: the part of `LegacyPointerAnalysis::runOnModule` that converts the
-- relations, and the result record of src/PointerAnalysis.h. The arguments of the result's
-- constructor are evaluated from left to right here (the source leaves the order open).
use cclyzerpp.Prelude.{
  ℕ, Text, text, text_eq, Bool, true, false, ◌==◌, Option, none, some, List, [], ◌∷◌, map,
  if◌then◌else◌,
}
use cclyzerpp.Gen.{ℤ, pos, negsuc}
use cclyzerpp.Analysis.{VarPointsTo}
use cclyzerpp.Analysis.Relations.{
  Variant, callgraph_edge, alloc_may_alias, alloc_must_alias, alloc_subregion, alloc_contains,
  ptr_points_to, operand_points_to, var_points_to, allocation_size, allocation_by_instr,
}
use cclyzerpp.Analysis.Rows.{
  Checked, answer, failed, null_pointer, ◌>>=◌, Column, int_column, value_column, flyweight_column,
  Cells, Reader, relation_to_vector,
}

-- The columns of the relations.
abbrev pub context_columns : List Column
context_columns = int_column ∷ flyweight_column ∷ []

abbrev pub callgraph_columns : List Column
callgraph_columns = int_column ∷ value_column ∷ int_column ∷ value_column ∷ []

abbrev pub variable_columns : List Column
variable_columns = int_column ∷ flyweight_column ∷ int_column ∷ value_column ∷ []

abbrev pub pair_columns : List Column
pair_columns = int_column ∷ flyweight_column ∷ flyweight_column ∷ []

abbrev pub pointer_columns : List Column
pointer_columns = int_column ∷ flyweight_column ∷ int_column ∷ flyweight_column ∷ []

abbrev pub global_columns : List Column
global_columns = value_column ∷ flyweight_column ∷ []

abbrev pub size_columns : List Column
size_columns = int_column ∷ flyweight_column ∷ int_column ∷ []

abbrev pub site_columns : List Column
site_columns = int_column ∷ value_column ∷ int_column ∷ flyweight_column ∷ []

-- `PointerAnalysisAAResult`; the call graph maps a caller to contexts (the caller's, the callee's)
-- and a callee.
pub record PointerAnalysisAaResult : Type 0 where
  pub context_to_string : List (ℤ × Text)
  pub variable_points_to : List VarPointsTo
  pub may_alias : List (Cells pair_columns)
  pub must_alias : List (Cells pair_columns)
  pub subregion : List (Cells pair_columns)
  pub contains : List (Cells pair_columns)
  pub pointer_points_to : List (Cells pointer_columns)
  pub operands : List (Cells variable_columns)
  pub global_allocations : List (Cells global_columns)
  pub allocation_sizes : List (Cells size_columns)
  pub allocation_sites : List (Cells site_columns)
  pub null_ptr_set : List ℕ
  pub callgraph : List (ℕ × ℤ × ℤ × ℕ)

unfoldable pub int_eq : ℤ → ℤ → Bool
int_eq (pos m) (pos n) = m == n
int_eq (pos m) (negsuc n) = false
int_eq (negsuc m) (pos n) = false
int_eq (negsuc m) (negsuc n) = m == n

unfoldable pub has_context : ℤ → List (ℤ × Text) → Bool
unfolding int_eq
has_context c [] = false
has_context c ((d, t) ∷ m) = if int_eq d c then true else has_context c m

-- `emplace` keeps an entry that is there.
unfoldable pub emplace_context : ℤ → Text → List (ℤ × Text) → List (ℤ × Text)
unfolding has_context
emplace_context c t m = if has_context c m then m else (c, t) ∷ m

unfoldable pub contexts_of : List (Cells context_columns) → List (ℤ × Text) → List (ℤ × Text)
unfolding emplace_context
contexts_of [] m = m
contexts_of ((c, (t, _)) ∷ rows) m = contexts_of rows (emplace_context c t m)

unfoldable pub call_graph_of :
    List (Cells callgraph_columns) → List (ℕ × ℤ × ℤ × ℕ) → List (ℕ × ℤ × ℤ × ℕ)
call_graph_of [] graph = graph
call_graph_of ((callee_ctx, (callee, (caller_ctx, (caller, _)))) ∷ rows) graph =
    call_graph_of rows ((caller, caller_ctx, callee_ctx, callee) ∷ graph)

unfoldable pub has_value : ℕ → List ℕ → Bool
has_value v [] = false
has_value v (u ∷ us) = if u == v then true else has_value v us

unfoldable pub null_pointers : List (Cells variable_columns) → List ℕ → List ℕ
unfolding has_value text
null_pointers [] set = set
null_pointers ((_, (alias_set_identifier, (_, (value, _)))) ∷ rows) set = null_pointers rows (
    if text_eq alias_set_identifier (text "*null*")
    then if has_value value set then set else value ∷ set
    else set)

abbrev pub var_points_to_row : Cells variable_columns → VarPointsTo
var_points_to_row (alloc_ctx, (to, (pointer_ctx, (value, _)))) = record {
  alloc_context = alloc_ctx;
  target = to;
  pointer_context = pointer_ctx;
  from = value;
}

-- `getRelation` on the program, whose rows are read by `reader`.
module _ {Row : Type 0} (reader : Reader Row) (get_relation : Text → Option (List Row))
    (llvm_val_map : List (Text × ℕ)) where
  unfoldable pub convert : (cs : List Column) → Option (List Row) → Checked (List (Cells cs))
  unfolding relation_to_vector
  convert cs none = failed null_pointer
  convert cs (some rows) = relation_to_vector reader llvm_val_map cs rows

  -- `relationToVector`
  unfoldable pub get_vector : (cs : List Column) → Text → Checked (List (Cells cs))
  unfolding convert
  get_vector cs name = convert cs (get_relation name)

  -- The part of `runOnModule` that builds the result.
  unfoldable pub read_results : Variant → Checked PointerAnalysisAaResult
  unfolding get_vector
  read_results which = do
    context_to_string_vec ← get_vector context_columns (text "context_to_string")
    callgraph_vec ← get_vector callgraph_columns (callgraph_edge which)
    var_points_to_rel ← get_vector variable_columns (var_points_to which)
    may ← get_vector pair_columns (alloc_may_alias which)
    must ← get_vector pair_columns (alloc_must_alias which)
    subregions ← get_vector pair_columns (alloc_subregion which)
    containing ← get_vector pair_columns (alloc_contains which)
    pointers ← get_vector pointer_columns (ptr_points_to which)
    operand_rows ← get_vector variable_columns (operand_points_to which)
    globals ← get_vector global_columns (text "global_allocation_by_variable")
    sizes ← get_vector size_columns (allocation_size which)
    sites ← get_vector site_columns (allocation_by_instr which)
    answer (record {
      context_to_string = contexts_of context_to_string_vec [];
      variable_points_to = map var_points_to_row var_points_to_rel;
      may_alias = may;
      must_alias = must;
      subregion = subregions;
      contains = containing;
      pointer_points_to = pointers;
      operands = operand_rows;
      global_allocations = globals;
      allocation_sizes = sizes;
      allocation_sites = sites;
      null_ptr_set = null_pointers var_points_to_rel [];
      callgraph = call_graph_of callgraph_vec [];
    })
