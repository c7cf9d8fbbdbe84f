-- ===== src/Predicates/Base.antt =====
-- FactGenerator/include/Predicate.hpp and PredicateGroups.hpp: a predicate is its name; a group of
-- predicates (a struct with static members in the source) is a record. The groups that the source
-- passes as template arguments of one template share a record type.
use cclyzerpp.Prelude.{String}

pub data Predicate : Type 0 where
  predicate : String → Predicate

abbrev pub get_name : Predicate → String
get_name (predicate n) = n

pub record BinaryGroup : Type 0 where
  pub instr : Predicate
  pub first_operand : Predicate
  pub second_operand : Predicate

pub record CastGroup : Type 0 where
  pub instr : Predicate
  pub from_operand : Predicate
  pub to_type : Predicate

pub record AggregateGroup : Type 0 where
  pub id : Predicate
  pub index : Predicate
  pub size : Predicate

pub record EntityGroup : Type 0 where
  pub id : Predicate
