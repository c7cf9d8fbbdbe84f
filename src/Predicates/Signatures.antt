-- ===== src/Predicates/Signatures.antt =====
-- FactGenerator/include/predicates.inc: the predicate groups of points-to signatures and the user options.
use cclyzerpp.Predicates.Base.{Predicate, predicate}

pub record SignatureGroup : Type 0 where
  pub none : Predicate
  pub return_alloc : Predicate
  pub return_alloc_once : Predicate
  pub return_aliases_arg : Predicate
  pub return_aliases_arg_reachable : Predicate
  pub return_points_to_global : Predicate
  pub return_aliases_global : Predicate
  pub return_aliases_global_reachable : Predicate
  pub arg_alloc : Predicate
  pub arg_alloc_once : Predicate
  pub arg_memcpy_arg : Predicate
  pub arg_memcpy_arg_reachable : Predicate
  pub arg_points_to_global : Predicate
  pub arg_memcpy_global : Predicate
  pub arg_memcpy_global_reachable : Predicate
  pub global_memcpy_arg : Predicate
  pub global_memcpy_arg_reachable : Predicate

abbrev pub signature : SignatureGroup
signature = record {
  none = predicate "signature_none";
  return_alloc = predicate "signature_return_alloc";
  return_alloc_once = predicate "signature_return_alloc_once";
  return_aliases_arg = predicate "signature_return_aliases_arg";
  return_aliases_arg_reachable = predicate "signature_return_aliases_arg_reachable";
  return_points_to_global = predicate "signature_return_points_to_global";
  return_aliases_global = predicate "signature_return_aliases_global";
  return_aliases_global_reachable = predicate "signature_return_aliases_global_reachable";
  arg_alloc = predicate "signature_arg_alloc";
  arg_alloc_once = predicate "signature_arg_alloc_once";
  arg_memcpy_arg = predicate "signature_arg_memcpy_arg";
  arg_memcpy_arg_reachable = predicate "signature_arg_memcpy_arg_reachable";
  arg_points_to_global = predicate "signature_arg_points_to_global";
  arg_memcpy_global = predicate "signature_arg_memcpy_global";
  arg_memcpy_global_reachable = predicate "signature_arg_memcpy_global_reachable";
  global_memcpy_arg = predicate "signature_global_memcpy_arg";
  global_memcpy_arg_reachable = predicate "signature_global_memcpy_arg_reachable";
}

pub record UserGroup : Type 0 where
  pub options : Predicate

abbrev pub user : UserGroup
user = record { options = predicate "user_options" }
