-- ===== src/Functions.antt =====
-- FactGenerator/src/Functions.cpp: a function's own facts, without its body.
use cclyzerpp.Prelude.{ℕ, Text, is_empty, not, [], ◌∷◌, ◌==◌}
use cclyzerpp.Predicates.{func}
use cclyzerpp.Ir.{header, Value, Function}
use cclyzerpp.Enums.{visibility_to_string, linkage_to_string}
use cclyzerpp.Context.{get_name}
use cclyzerpp.Refmode.{value_refmode}
use cclyzerpp.Externals.{Externals}
use cclyzerpp.Demangler.{demangle}
use cclyzerpp.Constants.{write_constant}
use cclyzerpp.Instruction.Control.{write_calling_conv}
use cclyzerpp.Gen.{
  Gen, ◌>>=◌, ◌>>◌, when, when_some, for_indexed, str, num, write_fact, record_type,
  record_variable, save_result, refmode,
}

unfoldable pub write_param : Text → ℕ → Value → Gen (Unit {0})
write_param funcref index arg = do
  var_id ← refmode (value_refmode arg)
  save_result var_id (header arg).address
  write_fact func.param funcref (num index ∷ str var_id ∷ [])
  record_variable var_id (header arg).type

-- What is written of a definition and not of a declaration.
unfoldable pub write_definition : Function → Text → Gen (Unit {0})
write_definition f funcref = do
  write_fact func.id_defn funcref []
  when_some f.function_section (λ t. write_fact func.section funcref (str t ∷ []))
  for_indexed 0 f.args (write_param funcref)

unfoldable pub write_function : Externals → Function → Text → Gen (Unit {0})
write_function x f funcref = do
  let visibility = visibility_to_string f.visibility
  let linkage = linkage_to_string f.linkage
  type_signature ← record_type f.function_type
  write_fact func.ty funcref (str type_signature ∷ [])
  write_fact func.signature funcref (str (demangle x (get_name f.value)) ∷ [])
  when (not (is_empty linkage)) (write_fact func.linkage funcref (str linkage ∷ []))
  when (not (is_empty visibility)) (write_fact func.visibility funcref (str visibility ∷ []))
  when (not (f.alignment == 0)) (write_fact func.alignment funcref (num f.alignment ∷ []))
  when_some f.gc (λ t. write_fact func.gc funcref (str t ∷ []))
  when_some f.personality
      (λ c. do r ← write_constant x c; write_fact func.pers_fn funcref (str r ∷ []))
  write_calling_conv func.calling_conv funcref f.calling_conv
  write_fact func.name funcref (str (b'@' ∷ get_name f.value) ∷ [])
  when f.has_global_unnamed_addr (write_fact func.unnamed_addr funcref [])
  when f.is_declaration (write_fact func.id_decl funcref [])
  when (not f.is_declaration) (write_definition f funcref)
