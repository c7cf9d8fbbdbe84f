-- ===== src/Predicates/Globals.antt =====
-- FactGenerator/include/predicates.inc: the predicate groups of blocks, global variables, aliases, functions and all instructions.
use cclyzerpp.Predicates.Base.{Predicate, predicate}

pub record BlockGroup : Type 0 where
  pub predecessor : Predicate

abbrev pub block : BlockGroup
block = record { predecessor = predicate "block_predecessor" }

pub record GlobalVarGroup : Type 0 where
  pub id : Predicate
  pub name : Predicate
  pub demangled_name : Predicate
  pub type : Predicate
  pub initializer : Predicate
  pub section : Predicate
  pub aligned_to : Predicate
  pub flag : Predicate
  pub linkage : Predicate
  pub visibility : Predicate
  pub threadlocal_mode : Predicate

abbrev pub global_var : GlobalVarGroup
global_var = record {
  id = predicate "global_var";
  name = predicate "global_var_name";
  demangled_name = predicate "global_var_demangled_name";
  type = predicate "global_var_type";
  initializer = predicate "global_var_initializer";
  section = predicate "global_var_section";
  aligned_to = predicate "global_var_aligned_to";
  flag = predicate "global_var_flag";
  linkage = predicate "global_var_linkage";
  visibility = predicate "global_var_visibility";
  threadlocal_mode = predicate "global_var_threadlocal_mode";
}

pub record AliasGroup : Type 0 where
  pub id : Predicate
  pub name : Predicate
  pub type : Predicate
  pub linkage : Predicate
  pub visibility : Predicate
  pub aliasee : Predicate

abbrev pub alias : AliasGroup
alias = record {
  id = predicate "alias";
  name = predicate "alias_name";
  type = predicate "alias_type";
  linkage = predicate "alias_linkage";
  visibility = predicate "alias_visibility";
  aliasee = predicate "alias_aliasee";
}

pub record FuncGroup : Type 0 where
  pub id_defn : Predicate
  pub id_decl : Predicate
  pub unnamed_addr : Predicate
  pub linkage : Predicate
  pub visibility : Predicate
  pub calling_conv : Predicate
  pub section : Predicate
  pub alignment : Predicate
  pub gc : Predicate
  pub pers_fn : Predicate
  pub name : Predicate
  pub ty : Predicate
  pub signature : Predicate
  pub param : Predicate

abbrev pub func : FuncGroup
func = record {
  id_defn = predicate "func";
  id_decl = predicate "func_decl";
  unnamed_addr = predicate "func_unnamed_addr";
  linkage = predicate "func_linkage";
  visibility = predicate "func_visibility";
  calling_conv = predicate "func_calling_conv";
  section = predicate "func_section";
  alignment = predicate "func_alignment";
  gc = predicate "func_gc";
  pers_fn = predicate "func_pers_fn";
  name = predicate "func_name";
  ty = predicate "func_ty";
  signature = predicate "func_signature";
  param = predicate "func_param";
}

pub record InstrGroup : Type 0 where
  pub assigns_to : Predicate
  pub flag : Predicate
  pub successor : Predicate
  pub bb_entry : Predicate
  pub func : Predicate
  pub pos : Predicate

abbrev pub instr : InstrGroup
instr = record {
  assigns_to = predicate "instr_assigns_to";
  flag = predicate "instr_flag";
  successor = predicate "instr_successor";
  bb_entry = predicate "instr_bb_entry";
  func = predicate "instr_func";
  pos = predicate "instr_pos";
}
