-- ===== src/Types/Accumulator.antt =====
-- FactGenerator/include/TypeAccumulator.hpp: the types reachable from those met. The recursion
-- through the graph of types takes fuel.
use cclyzerpp.Prelude.{ℕ, zero, suc, Option, none, some, List, [], ◌∷◌, map, if◌then◌else◌}
use cclyzerpp.Ir.{LlvmType}
use cclyzerpp.Gen.{has_type}
use cclyzerpp.Types.View.{
  TypeView, TypeShape, function_shape, struct_shape, array_shape, pointer_shape, vector_shape,
}

-- The component types that `visitType` recurs into, in its order.
unfoldable pub components : TypeShape → List LlvmType
components (array_shape t n) = t ∷ []
components (pointer_shape t n) = t ∷ []
components (struct_shape n fields) = map (λ f. f.field_type) fields
components (vector_shape t n) = t ∷ []
components (function_shape r ps v) = r ∷ ps
components _ = []

module _ (view : LlvmType → TypeView) where
  -- `visitType` on each type of a list in turn, threading the set of types.
  unfoldable pub visit_types : ℕ → List LlvmType → List LlvmType → Option (List LlvmType)
  visit_types fuel [] acc = some acc
  visit_types zero (t ∷ ts) acc = if has_type t acc then visit_types zero ts acc else none
  visit_types (suc fuel) (t ∷ ts) acc =
      let inside = visit_types fuel (components (view t).shape) (t ∷ acc) in
      if has_type t acc
      then visit_types (suc fuel) ts acc
      else elim inside [ none ↦ none | some acc' ↦ visit_types (suc fuel) ts acc' ]
