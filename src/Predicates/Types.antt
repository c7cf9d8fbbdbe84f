-- ===== src/Predicates/Types.antt =====
-- FactGenerator/include/predicates.inc: the predicate groups of types.
use cclyzerpp.Predicates.Base.{Predicate, predicate, EntityGroup}

abbrev pub primitive_type : EntityGroup
primitive_type = record { id = predicate "primitive_type" }

abbrev pub integer_type : EntityGroup
integer_type = record { id = predicate "integer_type" }

abbrev pub fp_type : EntityGroup
fp_type = record { id = predicate "fp_type" }

pub record TypeGroup : Type 0 where
  pub alloc_size : Predicate
  pub store_size : Predicate

abbrev pub type : TypeGroup
type = record {
  alloc_size = predicate "type_has_size";
  store_size = predicate "type_has_unpadded_size";
}

pub record FuncTypeGroup : Type 0 where
  pub id : Predicate
  pub varargs : Predicate
  pub return_type : Predicate
  pub param_type : Predicate
  pub nparams : Predicate

abbrev pub func_type : FuncTypeGroup
func_type = record {
  id = predicate "func_type";
  varargs = predicate "func_type_has_varargs";
  return_type = predicate "func_type_return";
  param_type = predicate "func_type_param";
  nparams = predicate "func_type_nparams";
}

pub record PtrTypeGroup : Type 0 where
  pub id : Predicate
  pub component_type : Predicate
  pub addr_space : Predicate

abbrev pub ptr_type : PtrTypeGroup
ptr_type = record {
  id = predicate "pointer_type";
  component_type = predicate "pointer_type_has_component";
  addr_space = predicate "pointer_type_has_addr_space";
}

pub record VectorTypeGroup : Type 0 where
  pub id : Predicate
  pub component_type : Predicate
  pub size : Predicate

abbrev pub vector_type : VectorTypeGroup
vector_type = record {
  id = predicate "vector_type";
  component_type = predicate "vector_type_has_component";
  size = predicate "vector_type_has_size";
}

pub record ArrayTypeGroup : Type 0 where
  pub id : Predicate
  pub component_type : Predicate
  pub size : Predicate

abbrev pub array_type : ArrayTypeGroup
array_type = record {
  id = predicate "array_type";
  component_type = predicate "array_type_has_component";
  size = predicate "array_type_has_size";
}

pub record StructTypeGroup : Type 0 where
  pub id : Predicate
  pub field_type : Predicate
  pub field_offset : Predicate
  pub field_bit_offset : Predicate
  pub nfields : Predicate
  pub opaque : Predicate
  pub has_name : Predicate

abbrev pub struct_type : StructTypeGroup
struct_type = record {
  id = predicate "struct_type";
  field_type = predicate "struct_type_field";
  field_offset = predicate "struct_type_field_offset";
  field_bit_offset = predicate "struct_type_field_bit_offset";
  nfields = predicate "struct_type_nfields";
  opaque = predicate "opaque_struct_type";
  has_name = predicate "struct_type_has_name";
}
