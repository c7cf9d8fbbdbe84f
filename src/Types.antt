-- ===== src/Types.antt =====
-- FactGenerator/src/Types.cpp: `writeTypes`, over TypeAccumulator.hpp and TypeVisitor.cpp.
pub mod View
pub mod Accumulator
pub mod Closure
pub mod Fuel
pub mod Visitor
pub mod Written
use cclyzerpp.Prelude.{ℕ, suc, Text, text, Option, none, some, List, [], ◌∷◌, length}
use cclyzerpp.Predicates.{primitive_type}
use cclyzerpp.Ir.{LlvmType}
use cclyzerpp.Gen.{Gen, State, done, pure, ◌>>=◌, ◌>>◌, for_each, write_fact}
use View.{TypeView}
use Accumulator.{visit_types}
use Visitor.{visit_type}

unfoldable pub get_types : Gen (List LlvmType)
get_types s = done s.types s

-- `none` where the fuel of the accumulator ran out, which enough fuel excludes.
unfoldable pub visit_all : (LlvmType → TypeView) → Option (List LlvmType) → Gen (Unit {0})
visit_all view none = pure tt
visit_all view (some ts) = for_each ts (visit_type view)

unfoldable pub write_types : ℕ → (LlvmType → TypeView) → Gen (Unit {0})
write_types fuel view = do
  write_fact primitive_type.id (text "void") []
  write_fact primitive_type.id (text "label") []
  write_fact primitive_type.id (text "metadata") []
  write_fact primitive_type.id (text "x86mmx") []
  ts ← get_types
  visit_all view (visit_types view fuel ts [])
