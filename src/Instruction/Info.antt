-- ===== src/Instruction/Info.antt =====
-- FactGenerator/src/InstructionVisitor.cpp and InstructionVisitor.hpp: conditions, optimisation
-- flags and atomic information.
use cclyzerpp.Prelude.{Text, text, is_empty, Bool, not, if◌then◌else◌, Option, none, some, [], ◌∷◌}
use cclyzerpp.Predicates.{Predicate, instr, atomicrmw}
use cclyzerpp.Ir.{
  CmpPredicate, bad_fcmp, RmwOp, AtomicInfo, OptInfo, FpFlags, WrapInfo, no_wrap_info, overflowing,
  possibly_exact,
}
use cclyzerpp.Enums.{icmp_pred_string, atomic_binop_string, atomic_ordering_to_string}
use cclyzerpp.Gen.{Gen, pure, stop, malformed_module, ◌>>=◌, ◌>>◌, when, when_some, str, write_fact}

-- A string that the switch computes, or the exit on a malformed module.
unfoldable pub checked : Option Text → Text → Gen Text
checked none reason = stop (malformed_module reason)
checked (some t) reason = pure t

-- The exit is on one of the two bad predicates.
unfoldable pub bad_predicate : CmpPredicate → Text
bad_predicate bad_fcmp = text "bad fcmp predicate"
bad_predicate _ = text "bad icmp predicate"

unfoldable pub write_condition : Predicate → Text → CmpPredicate → Gen (Unit {0})
write_condition p iref c = do
  t ← checked (icmp_pred_string c) (bad_predicate c)
  write_fact p iref (str t ∷ [])

unfoldable pub write_atomic_rmw_op : Text → RmwOp → Gen (Unit {0})
write_atomic_rmw_op iref op = do
  t ← checked (atomic_binop_string op) (text "bad atomicrmw binop")
  write_fact atomicrmw.operation iref (str t ∷ [])

unfoldable pub write_flag : Text → Bool → Text → Gen (Unit {0})
write_flag iref test flag = when test (write_fact instr.flag iref (str flag ∷ []))

unfoldable pub write_fp_flags : Text → FpFlags → Gen (Unit {0})
write_fp_flags iref f = do
  write_flag iref f.no_nans (text "nnan")
  write_flag iref f.no_infs (text "ninf")
  write_flag iref f.no_signed_zeros (text "nsz")
  write_flag iref f.allow_reciprocal (text "arcp")
  write_flag iref f.allow_contract (text "acon")
  write_flag iref f.approx_func (text "apfn")

unfoldable pub write_wrap_info : Text → WrapInfo → Gen (Unit {0})
write_wrap_info iref no_wrap_info = pure tt
write_wrap_info iref (overflowing nuw nsw) = do
  write_flag iref nuw (text "nuw")
  write_flag iref nsw (text "nsw")
write_wrap_info iref (possibly_exact exact) = write_flag iref exact (text "exact")

unfoldable pub write_optimization_info : Text → OptInfo → Gen (Unit {0})
write_optimization_info iref o = do
  when_some o.fp
      (λ f. if f.is_fast then write_flag iref f.is_fast (text "fast") else write_fp_flags iref f)
  write_wrap_info iref o.wrap

-- `writeAtomicInfo`, with the ordering predicate of the group
unfoldable pub write_atomic_info : Predicate → Text → AtomicInfo → Gen (Unit {0})
write_atomic_info ordering iref a = do
  write_flag iref a.single_thread (text "singlethread")
  let atomic = atomic_ordering_to_string a.ordering
  when (not (is_empty atomic)) (write_fact ordering iref (str atomic ∷ []))
