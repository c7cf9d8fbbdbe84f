-- ===== src/Driver/Integrity.antt =====
-- FactGenerator/src/Main.cpp, `factgen`, with FactGenerator/src/Types.cpp: the columns stay sound
-- through all input files.
use cclyzerpp.Prelude.{ℕ, Text, Option, none, some, List, [], ◌∷◌}
use cclyzerpp.Ir.{LlvmType}
use cclyzerpp.Externals.{Externals}
use cclyzerpp.Signatures.{Document}
use cclyzerpp.Types.{write_types, visit_all, get_types}
use cclyzerpp.Types.View.{TypeView, TypeShape, StructField, vector_shape}
use cclyzerpp.Types.Visitor.{
  visit_pointer_type, visit_array_type, write_struct_entity, write_struct_field, visit_struct_type,
  visit_opaque_struct_type, visit_function_type, visit_vector_type, visit_shape, visit_type,
}
use cclyzerpp.Generate.{process_module}
use cclyzerpp.Driver.{ParsedModule, InputFile, process_parsed, process_input, factgen}
use cclyzerpp.Gen.{State, Outcome, done, stopped, Gen, final, continue, ◌>>=◌, for_each, pure, stop}
use cclyzerpp.Integrity.{refers, HasIntegrity}
use cclyzerpp.Integrity.Relation.{Advances-refl}
use cclyzerpp.Integrity.Rules.{Safe-Grows, Safe, Safe-for_each, Safe-write, Safe-pure}
use cclyzerpp.Integrity.Constants.{safe_rules}
use cclyzerpp.Integrity.Module.{process_module-HasIntegrity}

pub struct_entity-Safe : (k : Text) (n : Option Text) → Safe (write_struct_entity k n)
unfolding write_struct_entity refers
struct_entity-Safe k n = search (safe_rules, Safe-write) depth 12

pub struct_field-Safe : (k : Text) (i : ℕ) (f : StructField) → Safe (write_struct_field k i f)
unfolding write_struct_field refers
struct_field-Safe k i f = search (safe_rules, Safe-write) depth 12

pub vector_type-Safe : (k : Text) (t : LlvmType) (n : Option ℕ) → Safe (visit_vector_type k t n)
unfolding visit_vector_type refers
vector_type-Safe k t n = search (safe_rules, Safe-write) depth 12

pub visit_shape-Safe : (k : Text) (s : TypeShape) → Safe (visit_shape k s)
unfolding visit_shape visit_pointer_type visit_array_type visit_struct_type visit_opaque_struct_type
    visit_function_type refers
visit_shape-Safe k (vector_shape t n) = vector_type-Safe k t n
visit_shape-Safe k _ =
    search (safe_rules, Safe-write, struct_entity-Safe, struct_field-Safe) depth 16

pub visit_type-Safe : (view : LlvmType → TypeView) (t : LlvmType) → Safe (visit_type view t)
unfolding visit_type refers
visit_type-Safe view t = search (safe_rules, Safe-write, visit_shape-Safe) depth 16

get_types-Safe : Safe get_types
unfolding get_types
get_types-Safe = record { at = λ s. Advances-refl s }

visit_all-Safe :
    (view : LlvmType → TypeView) (ts : Option (List LlvmType)) → Safe (visit_all view ts)
unfolding visit_all
visit_all-Safe view none = Safe-pure tt
visit_all-Safe view (some ts) = Safe-for_each ts _ (visit_type-Safe view)

write_types-Safe : (fuel : ℕ) (view : LlvmType → TypeView) → Safe (write_types fuel view)
unfolding write_types refers
write_types-Safe fuel view =
    search (safe_rules, Safe-write, get_types-Safe, visit_all-Safe) depth 16

-- The columns are sound behind each of two computations.
continue-HasIntegrity :
    {A B : Type 0} (f : A → Gen B) (o : Outcome A)
    → ((a : A) (s : State) → HasIntegrity s → HasIntegrity (final (f a s)))
    → HasIntegrity (final o)
    → HasIntegrity (final (continue f o))
continue-HasIntegrity f (done a s) k h = k a s h
continue-HasIntegrity f (stopped e s) k h = h

module _ (x : Externals) (fuel : ℕ) (signatures : Option (Text × Document))
    (sensitivity : Text) where
  process_parsed-HasIntegrity :
      (name real_path : Text) (m : Option ParsedModule) (s : State)
      → HasIntegrity s
      → HasIntegrity (final (process_parsed x fuel signatures sensitivity name real_path m s))
  unfolding process_parsed stop ◌>>=◌
  process_parsed-HasIntegrity name real_path none s h = h
  process_parsed-HasIntegrity name real_path (some m) s h =
      continue-HasIntegrity {A = Unit {0}} {B = Unit {0}} (λ u. write_types fuel m.layout)
        (process_module x m.contents real_path signatures sensitivity s)
        (λ u t. (Safe-Grows _ (write_types-Safe fuel m.layout) t).sound)
        (process_module-HasIntegrity x m.contents real_path signatures sensitivity s h)

  -- Whatever the outcome of the loop over the input files, every operand column of the facts of all
  -- modules and types names a declared entity or a variable that waits to be written, if that held
  -- before.
  pub factgen-HasIntegrity :
      (files : List InputFile) (s : State)
      → HasIntegrity s
      → HasIntegrity (final (factgen x fuel signatures sensitivity files s))
  unfolding factgen process_input for_each pure ◌>>=◌
  factgen-HasIntegrity [] s h = h
  factgen-HasIntegrity (f ∷ fs) s h =
      continue-HasIntegrity {A = Unit {0}} {B = Unit {0}}
        (λ u. factgen x fuel signatures sensitivity fs)
        (process_input x fuel signatures sensitivity f s) (λ u t. factgen-HasIntegrity fs t)
        (process_parsed-HasIntegrity f.name f.real_path f.parsed s h)
