-- ===== src/Tests/Facts.antt =====
-- Instances of the theorems on the facts.
use cclyzerpp.Prelude.{
  ℕ, Text, text, text_eq, Bool, true, false, Option, none, some, List, [], ◌∷◌, ◌≡◌, refl, inl, inr,
  Occurs, ◌⊎◌, map,
}
use cclyzerpp.Predicates.{constant, variable, ret}
use cclyzerpp.Ir.{variable_operand, constant_operand, ret_op}
use cclyzerpp.Context.{
  frame, Frame, function_anchor, push_context, new_manager, function_context, new_context,
}
use cclyzerpp.Generate
use cclyzerpp.Generate.{process_module}
use cclyzerpp.Instruction.{visit}
use cclyzerpp.Instruction.Operands.{record_value}
use cclyzerpp.Variables.{write_local_variables}
use cclyzerpp.Gen.{State, Fact, str, final, process_has_ended, done, Outcome, current_function}
use cclyzerpp.Integrity.{HasIntegrity, Known, entity, frames, references, refers}
use cclyzerpp.Integrity.Declared.{process_module-declared}
use cclyzerpp.Integrity.Module.{process_module-HasIntegrity, process_module-balanced}
use cclyzerpp.Integrity.Instructions.{visit-HasIntegrity}
use cclyzerpp.Integrity.Constants.{record_value-Known}
use cclyzerpp.Integrity.Variables.{write_local_variables-Written, Written}
use cclyzerpp.Ir.{Header, plain, basic_block_value}
use cclyzerpp.Prelude.{suffix_from_last}
use cclyzerpp.Variables.{is_sigil}
use cclyzerpp.Writer.Columns.{have_columns, are_columns, is_column}
use cclyzerpp.Refmode.{block_refmode}
use cclyzerpp.Refmode.Sigil.{in_function, suffix_from_last-block_refmode}
use cclyzerpp.Tests.Data.{value_at}
use cclyzerpp.Driver.{InputFile, factgen}
use cclyzerpp.Driver.Integrity.{factgen-HasIntegrity}
use cclyzerpp.Types.View.{integer_shape}
use cclyzerpp.Tests.Data.{tools, identity, small_module, start, parameter, seven, i32}

-- `<m>:f:%x` and `<m>:f:0`
abbrev pub parameter_ref : Text
parameter_ref = b'<' ∷ b'm' ∷ b'>' ∷ b':' ∷ b'f' ∷ b':' ∷ b'%' ∷ b'x' ∷ []

abbrev return_ref : Text
return_ref = b'<' ∷ b'm' ∷ b'>' ∷ b':' ∷ b'f' ∷ b':' ∷ b'0' ∷ []

abbrev pub after_run : State
after_run = final (process_module tools small_module (b'm' ∷ []) none (b'i' ∷ []) start)

abbrev pub returned : Fact
returned = record { predicate = ret.operand; key = return_ref; fields = str parameter_ref ∷ [] }

pub no_facts-HasIntegrity : HasIntegrity start
no_facts-HasIntegrity = λ f m. absurd m

process_module-HasIntegrity_example : HasIntegrity after_run
process_module-HasIntegrity_example =
    process_module-HasIntegrity tools small_module (b'm' ∷ []) none (b'i' ∷ []) start
      no_facts-HasIntegrity

process_module-balanced_example :
    ((f : Fact) → Occurs f start.log → Occurs f after_run.log)
    × ((process_has_ended (process_module tools small_module (b'm' ∷ []) none (b'i' ∷ []) start)
          ≡ true)
        ⊎ ((frames after_run ≡ map frame (new_manager (b'm' ∷ [])).contexts)
            × (after_run.manager.function_index ≡ none)))
process_module-balanced_example =
    process_module-balanced tools small_module (b'm' ∷ []) none (b'i' ∷ []) start

visit-HasIntegrity_example :
    HasIntegrity (final (visit tools (ret_op (some (variable_operand parameter))) start))
visit-HasIntegrity_example =
    visit-HasIntegrity tools (ret_op (some (variable_operand parameter))) start
      no_facts-HasIntegrity

-- Inside `@f`, with a variable to write.
abbrev inside : State
inside = record start {
  manager = record {
    contexts =
        record {
          anchor = some (function_anchor identity);
          numbering = [];
          prefix = b'f' ∷ [];
          is_function = true;
        }
        ∷ record { anchor = none; numbering = []; prefix = b'm' ∷ []; is_function = false }
        ∷ [];
    function_index = some 1;
    instr_index = 0;
    constant_index = 0;
  };
  variable_types = (parameter_ref, i32) ∷ [];
}

inside-function : current_function inside ≡ done (some identity) inside
unfolding current_function function_context
inside-function = refl

write_local_variables-Written_example : Written inside.variable_types (write_local_variables inside)
write_local_variables-Written_example =
    write_local_variables-Written inside identity inside-function

abbrev seven_ref : Text
seven_ref = b'm' ∷ b':' ∷ b'f' ∷ b':' ∷ b'0' ∷ b':' ∷ b'7' ∷ []

-- What the definitions compute to on these inputs.
pub runs :
    (record_value tools (constant_operand seven) inside
      ≡ done seven_ref (final (record_value tools (constant_operand seven) inside)))
    × (process_module tools small_module (b'm' ∷ []) none (b'i' ∷ []) start ≡ done tt after_run)
    × Occurs returned after_run.log
    × Occurs parameter_ref (references returned)
    × (have_columns 9 after_run.log ≡ true)
unfolding cclyzerpp.Constants.write_operands cclyzerpp.Context.new_manager
    cclyzerpp.Context.push_context cclyzerpp.Context.pop_context cclyzerpp.Context.instr_count
    cclyzerpp.Context.constant_count cclyzerpp.Context.function_context
    cclyzerpp.Enums.linkage_to_string cclyzerpp.Enums.visibility_to_string
    cclyzerpp.Functions.write_param cclyzerpp.Functions.write_definition
    cclyzerpp.Functions.write_function cclyzerpp.Gen.write_fact cclyzerpp.Gen.assign_variable
    cclyzerpp.Gen.record_variable cclyzerpp.Gen.insert_type cclyzerpp.Gen.record_type
    cclyzerpp.Gen.save_result cclyzerpp.Gen.refmode cclyzerpp.Gen.instruction_ref
    cclyzerpp.Gen.in_context cclyzerpp.Gen.enter_module cclyzerpp.Gen.current_function
    cclyzerpp.Gen.Monad.when cclyzerpp.Gen.Monad.when_some cclyzerpp.Gen.Monad.for_each
    cclyzerpp.Gen.Monad.for_indexed cclyzerpp.Generate.name_or_throw cclyzerpp.Generate.write_label
    cclyzerpp.Generate.process_instruction cclyzerpp.Generate.process_instructions
    cclyzerpp.Generate.process_block cclyzerpp.Generate.process_blocks
    cclyzerpp.Generate.emit_matching cclyzerpp.Generate.process_body
    cclyzerpp.Generate.process_function cclyzerpp.Generate.process_signatures
    cclyzerpp.Generate.process_module cclyzerpp.Instruction.visit
    cclyzerpp.Instruction.Control.write_calling_conv
    cclyzerpp.Instruction.Control.write_return_value cclyzerpp.Instruction.Control.visit_return
    cclyzerpp.Instruction.Operands.record_instruction cclyzerpp.Instruction.Operands.record_value
    cclyzerpp.Instruction.Operands.write_instr_operand cclyzerpp.Prelude.Strings.text
    cclyzerpp.Prelude.Strings.text_eq cclyzerpp.Prelude.Strings.is_empty
    cclyzerpp.Prelude.Strings.to_text cclyzerpp.Prelude.Strings.suffix_from_last
    cclyzerpp.Prelude.Strings.trim cclyzerpp.Refmode.with_context_from
    cclyzerpp.Refmode.with_context cclyzerpp.Refmode.refmode_of
    cclyzerpp.Refmode.instruction_refmode cclyzerpp.Refmode.constant_refmode
    cclyzerpp.Refmode.value_refmode cclyzerpp.Refmode.Numbering.compute_numbering
    cclyzerpp.Refmode.Numbering.find_number cclyzerpp.Refmode.Numbering.number_of
    cclyzerpp.Variables.write_variable cclyzerpp.Variables.get_variables
    cclyzerpp.Variables.clear_variables cclyzerpp.Variables.require_function
    cclyzerpp.Variables.write_local_variables cclyzerpp.Integrity.refers have_columns are_columns
    is_column cclyzerpp.Writer.Csv.field_text cclyzerpp.Refmode.type_refmode
    cclyzerpp.Refmode.function_refmode cclyzerpp.Refmode.with_global_context
    cclyzerpp.Demangler.demangle
runs = (refl, refl, inr (inr (inr (inr (inr (inr (inr (inr (inl refl)))))))), inl refl, refl)

record_value-Known_example :
    Known (final (record_value tools (constant_operand seven) inside)) seven_ref
record_value-Known_example =
    record_value-Known tools (constant_operand seven) inside seven_ref _ runs.0

process_module-declared_example :
    Occurs (entity constant.id parameter_ref) after_run.log
    ⊎ Occurs (entity variable.id parameter_ref) after_run.log
process_module-declared_example =
    process_module-declared tools small_module identity [] (b'm' ∷ []) (b'i' ∷ []) start after_run
      tt returned parameter_ref refl no_facts-HasIntegrity runs.1 runs.2 runs.3

abbrev files : List InputFile
files =
    record {
      name = b'm' ∷ [];
      real_path = b'm' ∷ [];
      parsed = some (record {
        contents = small_module;
        layout = λ t. record { sizes = some (4, 4); shape = integer_shape };
      });
    }
    ∷ record { name = b'n' ∷ []; real_path = b'n' ∷ []; parsed = none }
    ∷ []

factgen-HasIntegrity_example : HasIntegrity (final (factgen tools 2 none (b'i' ∷ []) files start))
factgen-HasIntegrity_example =
    factgen-HasIntegrity tools 2 none (b'i' ∷ []) files start no_facts-HasIntegrity

abbrev unnamed_block : Header
unnamed_block = value_at 16 none i32 basic_block_value

inside-in_function : in_function inside.manager.contexts ≡ true
unfolding in_function
inside-in_function = refl

suffix_from_last-block_refmode_example :
    (t : Text) × (suffix_from_last is_sigil (block_refmode (plain unnamed_block) inside.manager).0
      ≡ some t)
suffix_from_last-block_refmode_example =
    suffix_from_last-block_refmode unnamed_block inside.manager refl refl inside-in_function
