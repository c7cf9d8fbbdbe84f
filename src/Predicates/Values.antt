-- ===== src/Predicates/Values.antt =====
-- FactGenerator/include/predicates.inc: the predicate groups of variables, constants and inline assembly.
use cclyzerpp.Predicates.Base.{Predicate, predicate, AggregateGroup, EntityGroup}

pub record VariableGroup : Type 0 where
  pub id : Predicate
  pub type : Predicate
  pub source_name : Predicate
  pub pos : Predicate
  pub in_func : Predicate
  pub name : Predicate

abbrev pub variable : VariableGroup
variable = record {
  id = predicate "variable";
  type = predicate "variable_has_type";
  source_name = predicate "variable_has_debug_source_name";
  pos = predicate "variable_has_debug_decl_pos";
  in_func = predicate "variable_in_func_name";
  name = predicate "variable_has_name";
}

pub record ConstantGroup : Type 0 where
  pub id : Predicate
  pub type : Predicate
  pub value : Predicate
  pub in_func : Predicate
  pub expr : Predicate
  pub hash : Predicate
  pub to_integer : Predicate

abbrev pub constant : ConstantGroup
constant = record {
  id = predicate "constant";
  type = predicate "constant_has_type";
  value = predicate "constant_has_value";
  in_func = predicate "constant_in_func_name";
  expr = predicate "constant_expression";
  hash = predicate "constant_hashes_to";
  to_integer = predicate "constant_to_int";
}

abbrev pub integer_constant : EntityGroup
integer_constant = record { id = predicate "integer_constant" }

abbrev pub fp_constant : EntityGroup
fp_constant = record { id = predicate "fp_constant" }

abbrev pub nullptr_constant : EntityGroup
nullptr_constant = record { id = predicate "nullptr_constant" }

pub record FuncConstantGroup : Type 0 where
  pub id : Predicate
  pub name : Predicate

abbrev pub func_constant : FuncConstantGroup
func_constant = record { id = predicate "func_constant"; name = predicate "func_constant_fn_name" }

pub record GlobalVarConstantGroup : Type 0 where
  pub id : Predicate
  pub name : Predicate

abbrev pub global_var_constant : GlobalVarConstantGroup
global_var_constant = record {
  id = predicate "global_var_constant";
  name = predicate "global_var_constant_name";
}

abbrev pub constant_array : AggregateGroup
constant_array = record {
  id = predicate "constant_array";
  index = predicate "constant_array_index";
  size = predicate "constant_array_has_size";
}

abbrev pub constant_struct : AggregateGroup
constant_struct = record {
  id = predicate "constant_struct";
  index = predicate "constant_struct_index";
  size = predicate "constant_struct_has_size";
}

abbrev pub constant_vector : AggregateGroup
constant_vector = record {
  id = predicate "constant_vector";
  index = predicate "constant_vector_index";
  size = predicate "constant_vector_has_size";
}

abbrev pub constant_expr : EntityGroup
constant_expr = record { id = predicate "constant_expression" }

pub record BitcastConstantExprGroup : Type 0 where
  pub id : Predicate
  pub from_constant : Predicate

abbrev pub bitcast_constant_expr : BitcastConstantExprGroup
bitcast_constant_expr = record {
  id = predicate "bitcast_constant_expression";
  from_constant = predicate "bitcast_constant_expression_from";
}

pub record InttoptrConstantExprGroup : Type 0 where
  pub id : Predicate
  pub from_int_constant : Predicate

abbrev pub inttoptr_constant_expr : InttoptrConstantExprGroup
inttoptr_constant_expr = record {
  id = predicate "inttoptr_constant_expression";
  from_int_constant = predicate "inttoptr_constant_expression_from";
}

pub record PtrtointConstantExprGroup : Type 0 where
  pub id : Predicate
  pub from_ptr_constant : Predicate

abbrev pub ptrtoint_constant_expr : PtrtointConstantExprGroup
ptrtoint_constant_expr = record {
  id = predicate "ptrtoint_constant_expression";
  from_ptr_constant = predicate "ptrtoint_constant_expression_from";
}

pub record GepConstantExprGroup : Type 0 where
  pub id : Predicate
  pub base : Predicate
  pub index : Predicate
  pub nindices : Predicate

abbrev pub gep_constant_expr : GepConstantExprGroup
gep_constant_expr = record {
  id = predicate "getelementptr_constant_expression";
  base = predicate "getelementptr_constant_expression_base";
  index = predicate "getelementptr_constant_expression_index";
  nindices = predicate "getelementptr_constant_expression_nindices";
}

abbrev pub undef_constant : EntityGroup
undef_constant = record { id = predicate "undef_constant" }

abbrev pub poison_constant : EntityGroup
poison_constant = record { id = predicate "poison_constant" }

pub record InlineAsmGroup : Type 0 where
  pub id : Predicate
  pub text : Predicate
  pub constraints : Predicate

abbrev pub inline_asm : InlineAsmGroup
inline_asm = record {
  id = predicate "inline_asm";
  text = predicate "inline_asm_text";
  constraints = predicate "inline_asm_constraints";
}
