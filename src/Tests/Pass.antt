-- ===== src/Tests/Pass.antt =====
-- Instances of the theorems on the LLVM pass.
use cclyzerpp.Prelude.{
  ℕ, Text, text, text_eq, Bool, true, false, Option, none, some, List, [], ◌∷◌, ◌++◌, ◌≡◌, ◌≢◌,
  refl, ◌↔◌, Occurs, All,
}
use cclyzerpp.Gen.{ℤ, pos, Outcome}
use cclyzerpp.Driver.{ParsedModule}
use cclyzerpp.Types.View.{integer_shape}
use cclyzerpp.Sensitivity.{insensitive, context_sensitivity_to_string}
use cclyzerpp.Wrapper.{files_behind, factgen_module, new_generator}
use cclyzerpp.Analysis.{no_alias, may_alias, alias_query}
use cclyzerpp.Analysis.Relations.{subset}
use cclyzerpp.Analysis.Rows.{Checked, answer, failed, Cells, Reader, relation_to_vector}
use cclyzerpp.Analysis.Reading.{
  Gives, RelationDenotes, relation_to_vector-Gives, relation_to_vector-answer_iff,
}
use cclyzerpp.Analysis.Results.{
  PointerAnalysisAaResult, global_columns, callgraph_columns, read_results,
}
use cclyzerpp.Analysis.Members.{callgraph_cells}
use cclyzerpp.Analysis.Meaning.{
  PointsAt, Stands, null_ptr_set-PointsAt, callgraph-Stands, alias_query-PointsAt,
}
use cclyzerpp.Analysis.Pass.{
  Souffle, PassOptions, run_on_module, make_parents, analyse_facts, analyse_outcome, store_facts,
  store_all,
}
use cclyzerpp.Analysis.Answers.{IsAnswered, run_on_module-IsAnswered}
use cclyzerpp.Tests.Data.{tools, small_module}
use cclyzerpp.Tests.Disk.{file_disk, contents, file_disk-IsStore}

-- A row is the list of its texts; each number is 0.
abbrev Row : Type 0
Row = List Text

abbrev next_text : Row → Text × Row
next_text [] = ([], [])
next_text (t ∷ row) = (t, row)

abbrev reader : Reader Row
reader = record { read_int = λ row. (pos 0, row); read_text = next_text }

-- The texts `a` and `*null*` name values.
abbrev null_text : Text
null_text = b'*' ∷ b'n' ∷ b'u' ∷ b'l' ∷ b'l' ∷ b'*' ∷ []

abbrev llvm_val_map : List (Text × ℕ)
llvm_val_map = (b'a' ∷ [], 1) ∷ (null_text, 2) ∷ []

abbrev rows : List Row
rows = (null_text ∷ (b'a' ∷ []) ∷ []) ∷ ((b'a' ∷ []) ∷ null_text ∷ []) ∷ []

relation_to_vector-Gives_example :
    Gives reader llvm_val_map
      (RelationDenotes reader llvm_val_map global_columns rows)
      (relation_to_vector reader llvm_val_map global_columns rows)
relation_to_vector-Gives_example = relation_to_vector-Gives reader llvm_val_map global_columns rows

abbrev cells : List (Cells global_columns)
cells = (2, (b'a' ∷ [], tt)) ∷ (1, (null_text, tt)) ∷ []

relation_to_vector-answer_iff_example :
    (relation_to_vector reader llvm_val_map global_columns rows ≡ answer cells)
    ↔ RelationDenotes reader llvm_val_map global_columns rows cells
relation_to_vector-answer_iff_example =
    relation_to_vector-answer_iff reader llvm_val_map global_columns rows cells

-- Every relation has these rows.
abbrev relations : Text → Option (List Row)
relations name = some rows

abbrev no_results : PointerAnalysisAaResult
no_results = record {
  context_to_string = [];
  variable_points_to = [];
  may_alias = [];
  must_alias = [];
  subregion = [];
  contains = [];
  pointer_points_to = [];
  operands = [];
  global_allocations = [];
  allocation_sizes = [];
  allocation_sites = [];
  null_ptr_set = [];
  callgraph = [];
}

abbrev result_of : Checked PointerAnalysisAaResult → PointerAnalysisAaResult
result_of (answer r) = r
result_of (failed e) = no_results

abbrev results : PointerAnalysisAaResult
results = result_of (read_results reader relations llvm_val_map subset)

results_read : read_results reader relations llvm_val_map subset ≡ answer results
unfolding read_results text_eq
results_read = refl

null_ptr_set-PointsAt_example :
    Occurs 1 results.null_ptr_set ↔ PointsAt reader llvm_val_map rows 1 (text "*null*")
null_ptr_set-PointsAt_example =
    null_ptr_set-PointsAt reader llvm_val_map relations subset results rows results_read 1 refl

callgraph-Stands_example :
    Occurs (1, pos 0, pos 0, 2) results.callgraph
    ↔ Stands reader llvm_val_map callgraph_columns rows (callgraph_cells (pos 0) 2 (pos 0) 1)
callgraph-Stands_example =
    callgraph-Stands reader llvm_val_map relations subset results rows results_read 1 2 (pos 0)
      (pos 0) refl

may_not_no : may_alias ≢ no_alias
may_not_no = λ e. cc

alias_query-PointsAt_example : (alias_query may_alias results.variable_points_to 1 2 ≡ no_alias) ↔ (
    ◌≢◌ {A = ℕ} 1 2
    × ¬ (
        (t : Text) × PointsAt reader llvm_val_map rows 1 t × PointsAt reader llvm_val_map rows 2 t))
alias_query-PointsAt_example =
    alias_query-PointsAt reader llvm_val_map relations subset results rows results_read may_alias 1
      2 refl may_not_no

-- A program whose relations are empty.
abbrev souffle : Souffle file_disk Row
souffle = record {
  reader = reader;
  has_program = λ name. true;
  run = λ name disk dir relation. some [];
  print_all = λ disk dir get_relation. disk;
}

abbrev pass_options : PassOptions
pass_options = record {
  which = subset;
  datalog_debug = false;
  datalog_debug_dir = b'o' ∷ [];
  check = true;
  signatures = none;
  sensitivity = insensitive;
}

abbrev join : Text → Text → Text
join dir name = dir ++ b'/' ∷ name

abbrev parsed_module : ParsedModule
parsed_module = record {
  contents = small_module;
  layout = λ t. record { sizes = some (4, 4); shape = integer_shape };
}

parents_made :
    (files : List Text) (disk : file_disk.Disk)
    → make_parents file_disk souffle tools join 2 pass_options files disk ≡ some disk
unfolding make_parents
parents_made [] disk = refl
parents_made (f ∷ files) disk = rw (parents_made files disk) refl

abbrev generated : Outcome (List (Text × ℕ))
generated =
    factgen_module tools 2 parsed_module (b'm' ∷ []) none
      (context_sensitivity_to_string insensitive) new_generator

abbrev stored : file_disk.Disk
stored =
    store_all file_disk souffle tools join 2 pass_options
      (files_behind join (b'o' ∷ []) generated).writers []

facts_stored :
    store_facts file_disk souffle tools join 2 pass_options
      (files_behind join (b'o' ∷ []) generated)
      []
    ≡ some stored
unfolding store_facts
facts_stored = rw (store_facts, parents_made) refl

outcome_analysed :
    (analyse_outcome file_disk souffle tools join 2 pass_options stored generated).0
    ≡ answer no_results
unfolding analyse_outcome factgen_module cclyzerpp.Constants.write_operands
    cclyzerpp.Context.new_manager cclyzerpp.Context.push_context cclyzerpp.Context.pop_context
    cclyzerpp.Context.instr_count cclyzerpp.Context.constant_count
    cclyzerpp.Context.function_context cclyzerpp.Enums.linkage_to_string
    cclyzerpp.Enums.visibility_to_string cclyzerpp.Functions.write_param
    cclyzerpp.Functions.write_definition cclyzerpp.Functions.write_function cclyzerpp.Gen.write_fact
    cclyzerpp.Gen.assign_variable cclyzerpp.Gen.record_variable cclyzerpp.Gen.insert_type
    cclyzerpp.Gen.record_type cclyzerpp.Gen.save_result cclyzerpp.Gen.refmode
    cclyzerpp.Gen.instruction_ref cclyzerpp.Gen.in_context cclyzerpp.Gen.enter_module
    cclyzerpp.Gen.current_function cclyzerpp.Gen.Monad.when cclyzerpp.Gen.Monad.when_some
    cclyzerpp.Gen.Monad.for_each cclyzerpp.Gen.Monad.for_indexed cclyzerpp.Generate.name_or_throw
    cclyzerpp.Generate.write_label cclyzerpp.Generate.process_instruction
    cclyzerpp.Generate.process_instructions cclyzerpp.Generate.process_block
    cclyzerpp.Generate.process_blocks cclyzerpp.Generate.emit_matching
    cclyzerpp.Generate.process_body cclyzerpp.Generate.process_function
    cclyzerpp.Generate.process_signatures cclyzerpp.Generate.process_module
    cclyzerpp.Instruction.visit cclyzerpp.Instruction.Control.write_calling_conv
    cclyzerpp.Instruction.Control.write_return_value cclyzerpp.Instruction.Control.visit_return
    cclyzerpp.Instruction.Operands.record_instruction cclyzerpp.Instruction.Operands.record_value
    cclyzerpp.Instruction.Operands.write_instr_operand cclyzerpp.Prelude.Strings.text
    cclyzerpp.Prelude.Strings.text_eq cclyzerpp.Prelude.Strings.is_empty
    cclyzerpp.Prelude.Strings.to_text cclyzerpp.Prelude.Strings.suffix_from_last
    cclyzerpp.Prelude.Strings.trim cclyzerpp.Refmode.with_context_from
    cclyzerpp.Refmode.with_context cclyzerpp.Refmode.refmode_of
    cclyzerpp.Refmode.instruction_refmode cclyzerpp.Refmode.constant_refmode
    cclyzerpp.Refmode.value_refmode cclyzerpp.Refmode.Numbering.compute_numbering
    cclyzerpp.Refmode.Numbering.find_number cclyzerpp.Refmode.Numbering.number_of
    cclyzerpp.Variables.write_variable cclyzerpp.Variables.get_variables
    cclyzerpp.Variables.clear_variables cclyzerpp.Variables.require_function
    cclyzerpp.Variables.write_local_variables cclyzerpp.Refmode.type_refmode
    cclyzerpp.Refmode.function_refmode cclyzerpp.Refmode.with_global_context
    cclyzerpp.Demangler.demangle cclyzerpp.Types.write_types cclyzerpp.Types.get_types
    cclyzerpp.Types.visit_all cclyzerpp.Types.Accumulator.visit_types cclyzerpp.Gen.has_type
    cclyzerpp.Types.Accumulator.components cclyzerpp.Types.Visitor.visit_type
    cclyzerpp.Types.Visitor.visit_shape cclyzerpp.Analysis.Assertions.assertion_relations
    cclyzerpp.Analysis.Assertions.check_relation cclyzerpp.Analysis.Results.contexts_of
    cclyzerpp.Analysis.Results.null_pointers cclyzerpp.Analysis.Results.call_graph_of
outcome_analysed = refl

pass_returns :
    (run_on_module file_disk souffle tools join 2 pass_options parsed_module (b'm' ∷ []) []).0
    ≡ answer no_results
unfolding run_on_module analyse_facts
pass_returns = rw (run_on_module, analyse_facts, facts_stored) outcome_analysed

run_on_module-IsAnswered_example :
    IsAnswered file_disk souffle tools join 2 pass_options contents file_disk-IsStore
      (factgen_module tools 2 parsed_module
        (b'm' ∷ [])
        none
        (context_sensitivity_to_string insensitive)
        new_generator)
      no_results
run_on_module-IsAnswered_example =
    run_on_module-IsAnswered file_disk souffle tools join 2 pass_options contents file_disk-IsStore
      parsed_module (b'm' ∷ []) [] no_results pass_returns
