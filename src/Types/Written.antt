-- ===== src/Types/Written.antt =====
-- FactGenerator/src/Types.cpp and TypeVisitor.cpp: the types that are met, and those that they are
-- made of, are all written.
use cclyzerpp.Prelude.{
  ℕ, ◌≤◌, Text, true, Option, none, some, List, [], ◌∷◌, ◌≡◌, refl, inl, Occurs, All, length,
}
use cclyzerpp.Predicates.{
  Predicate, primitive_type, fp_type, integer_type, func_type, ptr_type, array_type, struct_type,
  vector_type,
}
use cclyzerpp.Ir.{LlvmType}
use cclyzerpp.Refmode.{type_refmode}
use cclyzerpp.Gen.{
  Gen, State, Outcome, done, stopped, Fact, returns, final, continue, ◌>>=◌, ◌>>◌, for_each,
  write_fact,
}
use cclyzerpp.Integrity.{entity}
use cclyzerpp.Integrity.Rules.{Safe-Grows, Safe, Safe-for_each, Safe-write}
use cclyzerpp.Integrity.Constants.{safe_rules}
use cclyzerpp.Integrity.{refers}
use cclyzerpp.Driver.Integrity.{visit_type-Safe, struct_field-Safe}
use cclyzerpp.Progress.Rules.{Answers, Answers-for_each, answer_rules}
use cclyzerpp.Types.{get_types, visit_all, write_types}
use cclyzerpp.Types.View.{
  TypeView, TypeShape, StructField, primitive_shape, floating_shape, mmx_shape, unhandled_shape,
  integer_shape, function_shape, struct_shape, opaque_struct_shape, array_shape, pointer_shape,
  vector_shape,
}
use cclyzerpp.Types.Closure.{Included}
use cclyzerpp.Types.Fuel.{IsUniverse, IsClosed, visit_types-total}
use cclyzerpp.Types.Visitor.{
  visit_pointer_type, visit_array_type, write_struct_entity, write_struct_field, visit_struct_type,
  visit_opaque_struct_type, visit_function_type, visit_vector_type, visit_shape, visit_type,
}

-- A method that leaves the fact of an entity.
record Writes {A : Type 0} (p : Predicate) (k : Text) (m : Gen A) : Type 0 where
  at : (s : State) → Occurs (entity p k) (final (m s)).log

Writes-fact : (p : Predicate) (k : Text) → Writes p k (write_fact p k [])
unfolding write_fact
Writes-fact p k = record { at = λ s. inl refl }

module _ {A B : Type 0} (p : Predicate) (k : Text) where
  kept :
      (f : A → Gen B) (o : Outcome A)
      → ((a : A) → Safe (f a))
      → Occurs (entity p k) (final o).log
      → Occurs (entity p k) (final (continue f o)).log
  kept f (done a t) h m = (Safe-Grows (f a) (h a) t).facts (entity p k) m
  kept f (stopped e t) h m = m

  -- Written before a safe step.
  Writes-before :
      (m : Gen A) (f : A → Gen B) → Writes p k m → ((a : A) → Safe (f a)) → Writes p k (m >>= f)
  unfolding ◌>>=◌
  Writes-before m f w h = record { at = λ s. kept f (m s) h (w.at s) }

  later :
      (f : A → Gen B) (o : Outcome A)
      → ((a : A) → Writes p k (f a))
      → returns o ≡ true
      → Occurs (entity p k) (final (continue f o)).log
  unfolding returns
  later f (done a t) w r = (w a).at t
  later f (stopped e t) w r = cc

  -- Written behind a step that returns.
  Writes-behind :
      (m : Gen A) (f : A → Gen B) → Answers m → ((a : A) → Writes p k (f a)) → Writes p k (m >>= f)
  unfolding ◌>>=◌
  Writes-behind m f h w = record { at = λ s. later f (m s) w (h.at s) }

-- The predicate of the entities of a kind of type; some kinds are only warned of.
abbrev pub kind : TypeShape → Option Predicate
kind primitive_shape = some primitive_type.id
kind floating_shape = some fp_type.id
kind mmx_shape = none
kind unhandled_shape = none
kind integer_shape = some integer_type.id
kind (function_shape r ps v) = some func_type.id
kind (struct_shape n fields) = some struct_type.id
kind (opaque_struct_shape n) = some struct_type.id
kind (array_shape t n) = some array_type.id
kind (pointer_shape t a) = some ptr_type.id
kind (vector_shape t n) = some vector_type.id

struct_entity-Writes :
    (k : Text) (n : Option Text) → Writes struct_type.id k (write_struct_entity k n)
unfolding write_struct_entity refers
struct_entity-Writes k n =
    Writes-before _ _ _ _ (Writes-fact _ _) (λ u. search (safe_rules, Safe-write) depth 8)

-- The entity of a kind of type is written, if the kind has one.
abbrev WritesKind : Option Predicate → Text → Gen (Unit {0}) → Type 0
WritesKind none k m = Unit {0}
WritesKind (some p) k m = Writes p k m

vector_type-Writes :
    (k : Text) (t : LlvmType) (n : Option ℕ) → Writes vector_type.id k (visit_vector_type k t n)
unfolding visit_vector_type refers
vector_type-Writes k t n =
    Writes-behind _ _ _ _ (search answer_rules depth 8)
      (λ u. Writes-before _ _ _ _ (Writes-fact _ _) (λ u. search (safe_rules, Safe-write) depth 8))

visit_shape-Writes :
    (k : Text) (shape : TypeShape) → WritesKind (kind shape) k (visit_shape k shape)
unfolding visit_shape visit_pointer_type visit_array_type visit_struct_type visit_opaque_struct_type
    visit_function_type refers
visit_shape-Writes k primitive_shape = Writes-fact _ _
visit_shape-Writes k floating_shape = Writes-fact _ _
visit_shape-Writes k mmx_shape = tt
visit_shape-Writes k unhandled_shape = tt
visit_shape-Writes k integer_shape = Writes-fact _ _
visit_shape-Writes k (function_shape r ps v) =
    Writes-before _ _ _ _ (Writes-fact _ _) (λ u. search (safe_rules, Safe-write) depth 16)
visit_shape-Writes k (struct_shape n fields) =
    Writes-before _ _ _ _ (struct_entity-Writes k n)
      (λ u. search (safe_rules, Safe-write, struct_field-Safe) depth 16)
visit_shape-Writes k (opaque_struct_shape n) =
    Writes-before _ _ _ _ (struct_entity-Writes k n) (λ u. search (safe_rules, Safe-write) depth 8)
visit_shape-Writes k (array_shape t n) =
    Writes-before _ _ _ _ (Writes-fact _ _) (λ u. search (safe_rules, Safe-write) depth 16)
visit_shape-Writes k (pointer_shape t a) =
    Writes-before _ _ _ _ (Writes-fact _ _) (λ u. search (safe_rules, Safe-write) depth 16)
visit_shape-Writes k (vector_shape t n) = vector_type-Writes k t n

struct_field-Answers : (k : Text) (i : ℕ) (f : StructField) → Answers (write_struct_field k i f)
unfolding write_struct_field
struct_field-Answers k i f = search answer_rules depth 8

visit_shape-Answers : (k : Text) (shape : TypeShape) → Answers (visit_shape k shape)
unfolding visit_shape visit_pointer_type visit_array_type visit_struct_type visit_opaque_struct_type
    visit_function_type visit_vector_type write_struct_entity
visit_shape-Answers k (vector_shape t n) = search answer_rules depth 16
visit_shape-Answers k _ = search (answer_rules, struct_field-Answers) depth 16

-- The facts declare an entity of a kind.
abbrev DeclaredKind : List Fact → Option Predicate → Text → Type 0
DeclaredKind log none k = Unit {0}
DeclaredKind log (some p) k = Occurs (entity p k) log

module _ (view : LlvmType → TypeView) where
  visit_type-Answers : (t : LlvmType) → Answers (visit_type view t)
  unfolding visit_type
  visit_type-Answers t = search (answer_rules, visit_shape-Answers) depth 16

  visit_type-Writes :
      (t : LlvmType) → WritesKind (kind (view t).shape) (type_refmode t) (visit_type view t)
  unfolding visit_type
  visit_type-Writes t =
      behind (kind (view t).shape) (visit_shape-Writes (type_refmode t) (view t).shape)
    where
      behind :
          (p : Option Predicate)
          → WritesKind p (type_refmode t) (visit_shape (type_refmode t) (view t).shape)
          → WritesKind p (type_refmode t) (visit_type view t)
      behind none w = tt
      behind (some p) w = Writes-behind p _ _ _ (search answer_rules depth 12) (λ u. w)

  -- The facts declare the type as an entity of its kind, if the kind has one.
  abbrev pub IsDeclared : List Fact → LlvmType → Type 0
  IsDeclared log t = DeclaredKind log (kind (view t).shape) (type_refmode t)

  -- A type that is visited stays declared while the others are.
  visit_type-DeclaredKind :
      (t : LlvmType) (ts : List LlvmType) (p : Option Predicate) (s : State)
      → WritesKind p (type_refmode t) (visit_type view t)
      → DeclaredKind
          (final ((visit_type view t >> for_each ts (visit_type view)) s)).log
          p
          (type_refmode t)
  visit_type-DeclaredKind t ts none s w = tt
  visit_type-DeclaredKind t ts (some p) s w =
      (Writes-before p _ _ _ w (λ u. Safe-for_each ts _ (visit_type-Safe view))).at s

  others-IsDeclared :
      (ts : List LlvmType) (o : Outcome (Unit {0}))
      → ((s : State) → All (IsDeclared (final (for_each ts (visit_type view) s)).log) ts)
      → returns o ≡ true
      → All (IsDeclared (final (continue (λ u. for_each ts (visit_type view)) o)).log) ts
  unfolding returns
  others-IsDeclared ts (done u t) ih h = ih t
  others-IsDeclared ts (stopped e t) ih h = cc

  for_each-IsDeclared :
      (ts : List LlvmType) (s : State)
      → All (IsDeclared (final (for_each ts (visit_type view) s)).log) ts
  unfolding for_each ◌>>=◌
  for_each-IsDeclared [] s = tt
  for_each-IsDeclared (t ∷ ts) s = (
    visit_type-DeclaredKind t ts (kind (view t).shape) s (visit_type-Writes t),
    others-IsDeclared ts (visit_type view t s) (for_each-IsDeclared ts)
        ((visit_type-Answers t).at s),
  )

  -- With as much fuel as there are types in a list that has the types met so far and the components
  -- of each of its types in it, `writeTypes` returns, and there is a set of types that has the types
  -- met and the components of its types, each of which the facts declare as an entity of its kind
  -- (but for x86_mmx, token, bfloat and x86_amx, which are only warned of).
  pub write_types-IsDeclared :
      (us : List LlvmType)
      → IsUniverse view us
      → (fuel : ℕ) (s : State) → length us ≤ fuel
      → ((t : LlvmType) → Occurs t s.types → Occurs t us)
      → (returns (write_types fuel view s) ≡ true)
        × ((r : List LlvmType) × Included s.types r
            × IsClosed view r
            × All (IsDeclared (final (write_types fuel view s)).log) r)
  unfolding write_types visit_all get_types ◌>>=◌ write_fact
  write_types-IsDeclared us closed fuel s l i =
      let (r, e, included, closed_r) = visit_types-total view us closed fuel s.types l i in
      (
        rw e ((Answers-for_each r (visit_type view) visit_type-Answers).at _),
        (r, included, closed_r, rw e (for_each-IsDeclared r _)),
      )
