-- ===== src/Globals.antt =====
-- FactGenerator/src/Globals.cpp: global variables and aliases.
use cclyzerpp.Prelude.{
  Text, text, is_empty, Bool, true, false, not, ◌&&◌, Option, none, some, [], ◌∷◌, ◌==◌,
  if◌then◌else◌,
}
use cclyzerpp.Predicates.{alias, global_var}
use cclyzerpp.Ir.{header, GlobalVariable, GlobalAlias, Linkage, external_linkage, Constant}
use cclyzerpp.Enums.{visibility_to_string, linkage_to_string, thread_local_mode_to_string}
use cclyzerpp.Context.{get_name}
use cclyzerpp.Externals.{Externals}
use cclyzerpp.Demangler.{demangle}
use cclyzerpp.Constants.{write_constant}
use cclyzerpp.Gen.{
  Gen, ◌>>=◌, ◌>>◌, when, when_some, str, num, write_fact, record_type, save_result,
}

unfoldable pub write_global_alias : Externals → GlobalAlias → Text → Gen (Unit {0})
write_global_alias x ga id = do
  write_fact alias.id id []
  write_fact alias.name id (str (b'@' ∷ get_name ga.value) ∷ [])
  let visibility = visibility_to_string ga.visibility
  let linkage = linkage_to_string ga.linkage
  alias_type ← record_type (header ga.value).type
  when (not (is_empty visibility)) (write_fact alias.visibility id (str visibility ∷ []))
  when (not (is_empty linkage)) (write_fact alias.linkage id (str linkage ∷ []))
  write_fact alias.type id (str alias_type ∷ [])
  when_some ga.aliasee (λ c. do r ← write_constant x c; write_fact alias.aliasee id (str r ∷ []))

abbrev pub is_external : Linkage → Bool
is_external external_linkage = true
is_external _ = false

abbrev pub is_missing : Option Constant → Bool
is_missing none = true
is_missing (some c) = false

unfoldable pub write_global_var : Externals → GlobalVariable → Text → Gen (Unit {0})
write_global_var x gv id = do
  write_fact global_var.id id []
  write_fact global_var.name id (str (b'@' ∷ get_name gv.value) ∷ [])
  save_result id (header gv.value).address
  t ← record_type (header gv.value).type
  let visibility = visibility_to_string gv.visibility
  let linkage = linkage_to_string gv.linkage
  var_type ← record_type gv.element_type
  let thr_loc_mode = thread_local_mode_to_string gv.thread_local_mode
  write_fact global_var.demangled_name id (str (demangle x (get_name gv.value)) ∷ [])
  when (is_missing gv.initializer && is_external gv.linkage)
      (write_fact global_var.linkage id (str (text "external") ∷ []))
  when (not (is_empty linkage)) (write_fact global_var.linkage id (str linkage ∷ []))
  when (not (is_empty visibility)) (write_fact global_var.visibility id (str visibility ∷ []))
  when (not (is_empty thr_loc_mode))
      (write_fact global_var.threadlocal_mode id (str thr_loc_mode ∷ []))
  when gv.externally_initialized
      (write_fact global_var.flag id (str (text "externally_initialized") ∷ []))
  write_fact global_var.flag id
      (str (if gv.is_constant then text "constant" else text "global") ∷ [])
  write_fact global_var.type id (str var_type ∷ [])
  when_some gv.initializer
      (λ c. do r ← write_constant x c; write_fact global_var.initializer id (str r ∷ []))
  when_some gv.var_section (λ t. write_fact global_var.section id (str t ∷ []))
  when (not (gv.alignment == 0)) (write_fact global_var.aligned_to id (num gv.alignment ∷ []))
