-- ===== src/Types/Visitor.antt =====
-- FactGenerator/src/TypeVisitor.cpp: the facts of each kind of type (LLVM 14).
use cclyzerpp.Prelude.{ℕ, Text, text, Bool, not, Option, List, [], ◌∷◌, ◌==◌, length}
use cclyzerpp.Predicates.{
  primitive_type, fp_type, integer_type, func_type, ptr_type, array_type, struct_type, vector_type,
  type as type_group,
}
use cclyzerpp.Ir.{LlvmType}
use cclyzerpp.Refmode.{type_refmode}
use cclyzerpp.Gen.{Gen, ◌>>◌, when, when_some, for_indexed, str, num, write_fact, unknown}
use cclyzerpp.Types.View.{
  TypeView, TypeShape, StructField, primitive_shape, floating_shape, mmx_shape, unhandled_shape,
  integer_shape, function_shape, struct_shape, opaque_struct_shape, array_shape, pointer_shape,
  vector_shape,
}

unfoldable pub visit_pointer_type : Text → LlvmType → ℕ → Gen (Unit {0})
visit_pointer_type type_id element address_space = do
  write_fact ptr_type.id type_id []
  when (not (address_space == 0)) (write_fact ptr_type.addr_space type_id (num address_space ∷ []))
  write_fact ptr_type.component_type type_id (str (type_refmode element) ∷ [])

unfoldable pub visit_array_type : Text → LlvmType → ℕ → Gen (Unit {0})
visit_array_type type_id element n_elements = do
  write_fact array_type.id type_id []
  write_fact array_type.component_type type_id (str (type_refmode element) ∷ [])
  write_fact array_type.size type_id (num n_elements ∷ [])

-- The entity of a struct type, and its name.
unfoldable pub write_struct_entity : Text → Option Text → Gen (Unit {0})
write_struct_entity tref name = do
  write_fact struct_type.id tref []
  when_some name (λ n. write_fact struct_type.has_name tref (str n ∷ []))

unfoldable pub write_struct_field : Text → ℕ → StructField → Gen (Unit {0})
write_struct_field tref i f = do
  write_fact struct_type.field_type tref (num i ∷ str (type_refmode f.field_type) ∷ [])
  write_fact struct_type.field_offset tref (num i ∷ num f.offset ∷ [])
  write_fact struct_type.field_bit_offset tref (num i ∷ num f.bit_offset ∷ [])

unfoldable pub visit_struct_type : Text → Option Text → List StructField → Gen (Unit {0})
visit_struct_type tref name fields = do
  write_struct_entity tref name
  for_indexed 0 fields (write_struct_field tref)
  write_fact struct_type.nfields tref (num (length fields) ∷ [])

unfoldable pub visit_opaque_struct_type : Text → Option Text → Gen (Unit {0})
visit_opaque_struct_type tref name = do
  write_struct_entity tref name
  write_fact struct_type.opaque tref []

unfoldable pub visit_function_type : Text → LlvmType → List LlvmType → Bool → Gen (Unit {0})
visit_function_type func_id return_type params is_var_arg = do
  write_fact func_type.id func_id []
  when is_var_arg (write_fact func_type.varargs func_id [])
  write_fact func_type.return_type func_id (str (type_refmode return_type) ∷ [])
  for_indexed 0 params
      (λ i t. write_fact func_type.param_type func_id (num i ∷ str (type_refmode t) ∷ []))
  write_fact func_type.nparams func_id (num (length params) ∷ [])

unfoldable pub visit_vector_type : Text → LlvmType → Option ℕ → Gen (Unit {0})
visit_vector_type tref element n_elements = do
  when_some n_elements (λ n. write_fact vector_type.size tref (num n ∷ []))
  write_fact vector_type.id tref []
  write_fact vector_type.component_type tref (str (type_refmode element) ∷ [])

unfoldable pub visit_shape : Text → TypeShape → Gen (Unit {0})
visit_shape tref primitive_shape = write_fact primitive_type.id tref []
visit_shape tref floating_shape = write_fact fp_type.id tref []
visit_shape tref mmx_shape = unknown (text "type") tref
visit_shape tref unhandled_shape = unknown (text "type") tref
visit_shape tref integer_shape = write_fact integer_type.id tref []
visit_shape tref (function_shape r ps v) = visit_function_type tref r ps v
visit_shape tref (struct_shape n fields) = visit_struct_type tref n fields
visit_shape tref (opaque_struct_shape n) = visit_opaque_struct_type tref n
visit_shape tref (array_shape t n) = visit_array_type tref t n
visit_shape tref (pointer_shape t a) = visit_pointer_type tref t a
visit_shape tref (vector_shape t n) = visit_vector_type tref t n

unfoldable pub visit_type : (LlvmType → TypeView) → LlvmType → Gen (Unit {0})
visit_type view t = do
  let tref = type_refmode t
  when_some (view t).sizes (λ n. do
    write_fact type_group.alloc_size tref (num n.0 ∷ [])
    write_fact type_group.store_size tref (num n.1 ∷ []))
  visit_shape tref (view t).shape
