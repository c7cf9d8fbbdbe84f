-- ===== src/Generate.antt =====
-- FactGenerator/src/FactGenerator.cpp: `processModule`.
use cclyzerpp.Prelude.{
  Text, text, Bool, true, false, not, Option, none, some, List, [], ◌∷◌, suffix_from_last,
  if◌then◌else◌,
}
use cclyzerpp.Predicates.{variable, block, instr, user}
use cclyzerpp.Ir.{header, Value, Instruction, Block, Function, GlobalVariable, GlobalAlias, Module}
use cclyzerpp.Context.{function_anchor, block_anchor, instruction_anchor, get_name}
use cclyzerpp.Refmode.{function_refmode, block_refmode, value_refmode, global_value_refmode}
use cclyzerpp.Externals.{Externals}
use cclyzerpp.Demangler.{is_itanium_encoding, demangle}
use cclyzerpp.Signatures.{Component, Document, emit_signatures, preprocess_signatures}
use cclyzerpp.Variables.{is_sigil, write_local_variables}
use cclyzerpp.Functions.{write_function}
use cclyzerpp.Globals.{write_global_var, write_global_alias}
use cclyzerpp.Instruction.{visit}
use cclyzerpp.Gen.{
  Gen, pure, stop, out_of_range, ◌>>=◌, ◌>>◌, when, when_some, for_each, str, num, write_fact,
  record_variable, save_result, refmode, instruction_ref, in_context, enter_module,
}

-- What is written of the variable that an instruction defines.
unfoldable pub write_target : Instruction → Text → Gen (Unit {0})
write_target i iref = do
  target_var ← refmode (value_refmode i.value)
  write_fact instr.assigns_to iref (str target_var ∷ [])
  record_variable target_var (header i.value).type
  save_result target_var (header i.value).address

-- `bb_ref.substr(bb_ref.find_last_of("%!"))`, which throws where nothing is found.
unfoldable pub name_or_throw : Option Text → Gen Text
name_or_throw none = stop out_of_range
name_or_throw (some n) = pure n

unfoldable pub write_label : Function → Value → Gen Text
write_label f bb = do
  bb_ref ← refmode (block_refmode bb)
  write_fact variable.id bb_ref []
  write_fact variable.type bb_ref (str (text "label") ∷ [])
  write_fact variable.in_func bb_ref (str (b'@' ∷ get_name f.value) ∷ [])
  n ← name_or_throw (suffix_from_last is_sigil bb_ref)
  write_fact variable.name bb_ref (str n ∷ [])
  pure bb_ref

unfoldable pub write_predecessor : Text → Value → Gen (Unit {0})
write_predecessor bb_ref p = do
  pred_bb ← refmode (block_refmode p)
  write_fact block.predecessor bb_ref (str pred_bb ∷ [])

module _ (x : Externals) (funcref : Text) where
  -- The body of the loop over instructions; the result is the new `prev_iref`.
  unfoldable pub process_instruction : Block → Instruction → Option Text → Gen Text
  process_instruction b i prev_iref = do
    iref ← instruction_ref
    save_result iref (header i.value).address
    when (not (header i.value).type.is_void) (write_target i iref)
    when_some prev_iref (λ p. write_fact instr.successor p (str iref ∷ []))
    write_fact instr.func iref (str funcref ∷ [])
    bb_entry_id ← refmode (block_refmode b.value)
    write_fact instr.bb_entry iref (str bb_entry_id ∷ [])
    visit x i.opcode
    when_some i.location (λ l. write_fact instr.pos iref (num l.0 ∷ num l.1 ∷ []))
    pure iref

  unfoldable pub process_instructions : Block → List Instruction → Option Text → Gen (Option Text)
  process_instructions b [] prev = pure prev
  process_instructions b (i ∷ is) prev = do
    iref ← in_context (instruction_anchor i.value) (process_instruction b i prev)
    process_instructions b is (some iref)

  unfoldable pub process_block : Function → Block → Option Text → Gen (Option Text)
  process_block f b prev = do
    bb_ref ← write_label f b.value
    for_each b.predecessors (write_predecessor bb_ref)
    process_instructions b b.instructions prev

  unfoldable pub process_blocks : Function → List Block → Option Text → Gen (Unit {0})
  process_blocks f [] prev = pure tt
  process_blocks f (b ∷ bs) prev = do
    prev' ← in_context (block_anchor b.value) (process_block f b prev)
    process_blocks f bs prev'

-- The name that signatures are matched against.
unfoldable pub signature_name : Externals → Text → Text
signature_name x n = if is_itanium_encoding n then demangle x n else n

-- The loop over the signatures: whether any matched.
unfoldable pub emit_matching : Externals → Text → List (Text × List Component) → Gen Bool
emit_matching x n [] = pure false
emit_matching x n ((regex, signatures) ∷ rest) =
    let later = emit_matching x n rest in
    if x.regex_search (signature_name x n) regex
    then (do emit_signatures n signatures; later; pure true)
    else later

-- The rest of a function's round, behind the test on `matched`.
unfoldable pub process_body : Externals → Function → Text → Bool → Gen (Unit {0})
process_body x f funcref true = pure tt
process_body x f funcref false = do process_blocks x funcref f f.blocks none; write_local_variables

unfoldable pub process_function :
    Externals → List (Text × List Component) → Function → Gen (Unit {0})
process_function x signatures f = in_context (function_anchor f) (do
  funcref ← refmode (λ m. (function_refmode f m, m))
  save_result funcref (header f.value).address
  write_function x f funcref
  matched ← emit_matching x (get_name f.value) signatures
  process_body x f funcref matched)

unfoldable pub process_global : Externals → GlobalVariable → Gen (Unit {0})
process_global x gv = do id ← refmode (global_value_refmode gv.value); write_global_var x gv id

unfoldable pub process_alias : Externals → GlobalAlias → Gen (Unit {0})
process_alias x ga = do id ← refmode (global_value_refmode ga.value); write_global_alias x ga id

-- The signatures of the file, if one is given.
unfoldable pub process_signatures :
    Externals → Option (Text × Document) → Gen (List (Text × List Component))
process_signatures x none = pure []
process_signatures x (some (path, document)) = preprocess_signatures x path document

unfoldable pub process_module :
    Externals → Module → Text → Option (Text × Document) → Text → Gen (Unit {0})
process_module x mod_view path signatures sensitivity = do
  enter_module path
  functions_with_signatures ← process_signatures x signatures
  for_each mod_view.globals (process_global x)
  for_each mod_view.aliases (process_alias x)
  write_fact user.options (text "context_sensitivity") (str sensitivity ∷ [])
  for_each mod_view.functions (process_function x functions_with_signatures)
