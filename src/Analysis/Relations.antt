-- ===== src/Analysis/Relations.antt =====
-- src/PointerAnalysis.cpp: the variants of the analysis and the relations that each exports.
use cclyzerpp.Prelude.{Text, text}

-- `enum class Analysis`
pub data Variant : Type 0 where
  debug subset unification : Variant

-- The name that `get_interface` creates the Souffle program with.
unfoldable pub interface_name : Variant → Text
unfolding text
interface_name debug = text "debug"
interface_name subset = text "subset"
interface_name unification = text "unification"

unfoldable pub callgraph_edge : Variant → Text
unfolding text
callgraph_edge debug = text "subset.callgraph.callgraph_edge"
callgraph_edge subset = text "subset.callgraph.callgraph_edge"
callgraph_edge unification = text "unification.callgraph.callgraph_edge"

unfoldable pub alloc_may_alias : Variant → Text
unfolding text
alloc_may_alias debug = text "subset_lift.alloc_may_alias_ctx"
alloc_may_alias subset = text "subset_lift.alloc_may_alias_ctx"
alloc_may_alias unification = text "unification_lift.alloc_may_alias_ctx"

unfoldable pub alloc_must_alias : Variant → Text
unfolding text
alloc_must_alias debug = text "subset_lift.alloc_must_alias_ctx"
alloc_must_alias subset = text "subset_lift.alloc_must_alias_ctx"
alloc_must_alias unification = text "unification_lift.alloc_must_alias_ctx"

unfoldable pub alloc_subregion : Variant → Text
unfolding text
alloc_subregion debug = text "subset_lift.alloc_subregion_ctx"
alloc_subregion subset = text "subset_lift.alloc_subregion_ctx"
alloc_subregion unification = text "unification_lift.alloc_subregion_ctx"

unfoldable pub alloc_contains : Variant → Text
unfolding text
alloc_contains debug = text "subset_lift.alloc_contains_ctx"
alloc_contains subset = text "subset_lift.alloc_contains_ctx"
alloc_contains unification = text "unification_lift.alloc_contains_ctx"

unfoldable pub ptr_points_to : Variant → Text
unfolding text
ptr_points_to debug = text "subset.ptr_points_to"
ptr_points_to subset = text "subset.ptr_points_to"
ptr_points_to unification = text "unification.ptr_points_to_final"

unfoldable pub operand_points_to : Variant → Text
unfolding text
operand_points_to debug = text "subset.operand_points_to"
operand_points_to subset = text "subset.operand_points_to"
operand_points_to unification = text "unification.operand_points_to_final"

unfoldable pub var_points_to : Variant → Text
unfolding text
var_points_to debug = text "subset.var_points_to"
var_points_to subset = text "subset.var_points_to"
var_points_to unification = text "unification.var_points_to_final"

unfoldable pub allocation_size : Variant → Text
unfolding text
allocation_size debug = text "subset_lift.allocation_size_ctx"
allocation_size subset = text "subset_lift.allocation_size_ctx"
allocation_size unification = text "unification_lift.allocation_size_ctx"

unfoldable pub allocation_by_instr : Variant → Text
unfolding text
allocation_by_instr debug = text "subset_lift.allocation_by_instr_ctx"
allocation_by_instr subset = text "subset_lift.allocation_by_instr_ctx"
allocation_by_instr unification = text "unification_lift.allocation_by_instr_ctx"
