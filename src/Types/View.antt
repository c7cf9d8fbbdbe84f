-- ===== src/Types/View.antt =====
-- What `TypeAccumulator` and `TypeVisitor` read of a type, LLVM 14. Types form a graph with cycles,
-- so the view of a type is looked up by its pointer.
use cclyzerpp.Prelude.{ℕ, Text, Bool, Option, List}
use cclyzerpp.Ir.{LlvmType}

pub record StructField : Type 0 where
  pub field_type : LlvmType
  pub offset : ℕ
  pub bit_offset : ℕ

pub data TypeShape : Type 0 where
  -- void, label, metadata
  primitive_shape : TypeShape
  -- half, float, double, x86_fp80, fp128, ppc_fp128
  floating_shape : TypeShape
  mmx_shape : TypeShape
  -- token, bfloat, x86_amx
  unhandled_shape : TypeShape
  integer_shape : TypeShape
  -- the return type, the parameters, and `isVarArg`
  function_shape : LlvmType → List LlvmType → Bool → TypeShape
  -- the name, if there is one, and the fields
  struct_shape : Option Text → List StructField → TypeShape
  opaque_struct_shape : Option Text → TypeShape
  array_shape : LlvmType → ℕ → TypeShape
  -- the element type and the address space
  pointer_shape : LlvmType → ℕ → TypeShape
  -- the number of elements of a fixed vector
  vector_shape : LlvmType → Option ℕ → TypeShape

pub record TypeView : Type 0 where
  -- the allocation size and the store size, if the type is sized
  pub sizes : Option (ℕ × ℕ)
  pub shape : TypeShape
