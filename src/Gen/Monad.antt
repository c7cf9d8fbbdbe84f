-- ===== src/Gen/Monad.antt =====
-- The state of the fact generator (FactGenerator/include/FactGenerator.hpp: `variableTypes`,
-- `types`, `result_map_`, and the facts handed to the writer), and the monad of its methods.
use cclyzerpp.Prelude.{ℕ, suc, Text, Bool, true, false, Option, none, some, List, [], ◌∷◌}
use cclyzerpp.Predicates.{Predicate}
use cclyzerpp.Ir.{LlvmType}
use cclyzerpp.Context.{ContextManager}

-- `negsuc n` is -(n + 1).
pub data ℤ : Type 0 where
  pos : ℕ → ℤ
  negsuc : ℕ → ℤ

-- A column value of one of the serializable types.
pub data Field : Type 0 where
  str : Text → Field
  num : ℕ → Field
  int : ℤ → Field

pub record Fact : Type 0 where
  pub predicate : Predicate
  pub key : Text
  pub fields : List Field

pub record State : Type 0 where
  pub manager : ContextManager
  -- the facts written so far, the newest first
  pub log : List Fact
  pub result_map : List (Text × ℕ)
  pub variable_types : List (Text × LlvmType)
  pub types : List LlvmType
  pub warnings : List (Text × Text)

-- How a run of the program can stop: `exit(1)` on a malformed module, an exception, or a read
-- through a null pointer.
pub data Failure : Type 0 where
  malformed_module invalid_argument parse_exception : Text → Failure
  out_of_range regex_error null_dereference : Failure

-- `std::exit` and a crash run no destructors of the calls that are under way; an exception unwinds
-- them, up to the caller that catches it.
abbrev pub ends_process : Failure → Bool
ends_process (malformed_module reason) = true
ends_process null_dereference = true
ends_process _ = false

pub data Outcome (A : Type 0) : Type 0 where
  done : A → State → Outcome A
  stopped : Failure → State → Outcome A

abbrev pub Gen : Type 0 → Type 0
Gen A = State → Outcome A

module _ {A : Type 0} where
  unfoldable pub pure : A → Gen A
  pure a s = done a s

  unfoldable pub stop : Failure → Gen A
  stop e s = stopped e s

  -- The state that a computation leaves, whether it returns or stops.
  abbrev pub final : Outcome A → State
  final (done a s) = s
  final (stopped e s) = s

  -- The process has stopped by `exit` or by a crash.
  unfoldable pub process_has_ended : Outcome A → Bool
  process_has_ended (done a s) = false
  process_has_ended (stopped e s) = ends_process e

  unfoldable pub returns : Outcome A → Bool
  returns (done a s) = true
  returns (stopped e s) = false

module _ {A B : Type 0} where
  abbrev pub continue : (A → Gen B) → Outcome A → Outcome B
  continue f (done a s) = f a s
  continue f (stopped e s) = stopped e s

  infixl 5 ◌>>=◌ ◌>>◌
  unfoldable pub ◌>>=◌ : Gen A → (A → Gen B) → Gen B
  ◌>>=◌ m f s = continue f (m s)

  abbrev pub ◌>>◌ : Gen A → Gen B → Gen B
  m >> n = m >>= λ _. n

unfoldable pub when : Bool → Gen (Unit {0}) → Gen (Unit {0})
unfolding pure
when true m = m
when false m = pure tt

unfoldable pub when_some : {A : Type 0} → Option A → (A → Gen (Unit {0})) → Gen (Unit {0})
unfolding pure
when_some none f = pure tt
when_some (some a) f = f a

-- `for (x : xs) body(x)`
unfoldable pub for_each : {A : Type 0} → List A → (A → Gen (Unit {0})) → Gen (Unit {0})
unfolding pure ◌>>=◌
for_each [] body = pure tt
for_each (x ∷ xs) body = do body x; for_each xs body

-- `for (i = from; ...; i++) body(i, xs[i - from])`
unfoldable pub for_indexed : {A : Type 0} → ℕ → List A → (ℕ → A → Gen (Unit {0})) → Gen (Unit {0})
unfolding pure ◌>>=◌
for_indexed from [] body = pure tt
for_indexed from (x ∷ xs) body = do body from x; for_indexed (suc from) xs body
