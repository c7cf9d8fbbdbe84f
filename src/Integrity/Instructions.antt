-- ===== src/Integrity/Instructions.antt =====
-- Every instruction visitor keeps integrity.
use cclyzerpp.Prelude.{ℕ, Text, Bool, Option, some, none, List, ◌≡◌, refl, false}
use cclyzerpp.Predicates.{Predicate, BinaryGroup, CastGroup}
use cclyzerpp.Ir.{
  CastOpcode, op_addrspacecast, BinaryOpcode, op_add, LlvmType, Operand, OptInfo, FpFlags, WrapInfo,
  no_wrap_info, overflowing, possibly_exact, AtomicInfo, CmpPredicate, RmwOp, CallInfo,
  AtomicOrdering, CallingConv, Opcode, cast_op, binary_op, call_op,
}
use cclyzerpp.Externals.{Externals}
use cclyzerpp.Gen.{State, final}
use cclyzerpp.Instruction.{visit}
use cclyzerpp.Instruction.Info.{
  checked, write_condition, write_atomic_rmw_op, write_flag, write_fp_flags, write_wrap_info,
  write_optimization_info, write_atomic_info,
}
use cclyzerpp.Instruction.Simple.{
  cast_group, binary_group, write_indices, visit_cast_inst, visit_cast, visit_binary_inst,
  visit_icmp, visit_fcmp, visit_select, visit_va_arg, visit_extract_value, visit_insert_value,
  visit_extract_element, visit_insert_element, visit_shuffle_vector, visit_fneg, visit_freeze,
}
use cclyzerpp.Instruction.Control.{
  write_calling_conv, write_return_value, visit_return, visit_cond_branch, visit_branch,
  visit_switch, visit_indirect_branch, visit_invoke, visit_resume, visit_phi, visit_landing_pad,
  visit_call, visit_dbg_declare, visit_unreachable,
}
use cclyzerpp.Instruction.Memory.{
  write_alignment, write_ordering, write_gep_index, visit_alloca, visit_load, visit_store,
  visit_cmpxchg, visit_atomicrmw, visit_fence, visit_gep,
}
use cclyzerpp.Integrity.{HasIntegrity, refers}
use cclyzerpp.Integrity.Rules.{Safe-Grows, Safe, Safe-write, Safe-pure, Safe-stop}
use cclyzerpp.Integrity.Constants.{operand_rules}

checked-Safe : (t : Option Text) (reason : Text) → Safe (checked t reason)
unfolding checked
checked-Safe none reason = Safe-stop _
checked-Safe (some t) reason = Safe-pure t

write_condition-Safe :
    (p : Predicate) (k : Text) (c : CmpPredicate) → refers p ≡ false → Safe (write_condition p k c)
unfolding write_condition
write_condition-Safe p k c e = search (operand_rules, checked-Safe, Safe-write p _ _ e) depth 8

write_atomic_rmw_op-Safe : (k : Text) (op : RmwOp) → Safe (write_atomic_rmw_op k op)
unfolding write_atomic_rmw_op refers
write_atomic_rmw_op-Safe k op = search (operand_rules, checked-Safe, Safe-write) depth 8

write_flag-Safe : (k : Text) (b : Bool) (f : Text) → Safe (write_flag k b f)
unfolding write_flag refers
write_flag-Safe k b f = search (operand_rules, Safe-write) depth 8

write_fp_flags-Safe : (k : Text) (f : FpFlags) → Safe (write_fp_flags k f)
unfolding write_fp_flags
write_fp_flags-Safe k f = search (operand_rules, write_flag-Safe) depth 12

write_wrap_info-Safe : (k : Text) (w : WrapInfo) → Safe (write_wrap_info k w)
unfolding write_wrap_info
write_wrap_info-Safe k no_wrap_info = Safe-pure tt
write_wrap_info-Safe k (overflowing a b) = search (operand_rules, write_flag-Safe) depth 8
write_wrap_info-Safe k (possibly_exact b) = write_flag-Safe _ _ _

write_optimization_info-Safe : (k : Text) (o : OptInfo) → Safe (write_optimization_info k o)
unfolding write_optimization_info
write_optimization_info-Safe k o =
    search (operand_rules, write_flag-Safe, write_fp_flags-Safe, write_wrap_info-Safe) depth 8

write_atomic_info-Safe :
    (p : Predicate) (k : Text) (a : AtomicInfo) → refers p ≡ false → Safe (write_atomic_info p k a)
unfolding write_atomic_info
write_atomic_info-Safe p k a e = search (operand_rules, write_flag-Safe, Safe-write p _ _ e) depth 8

pub write_calling_conv-Safe :
    (p : Predicate) (k : Text) (c : CallingConv)
    → refers p ≡ false
    → Safe (write_calling_conv p k c)
unfolding write_calling_conv
write_calling_conv-Safe p k c e = search (operand_rules, Safe-write p _ _ e) depth 8

write_alignment-Safe :
    (p : Predicate) (k : Text) (n : ℕ) → refers p ≡ false → Safe (write_alignment p k n)
unfolding write_alignment
write_alignment-Safe p k n e = search (operand_rules, Safe-write p _ _ e) depth 8

write_ordering-Safe : (k : Text) (o : AtomicOrdering) → Safe (write_ordering k o)
unfolding write_ordering refers
write_ordering-Safe k o = search (operand_rules, Safe-write) depth 8

write_indices-Safe :
    (p : Predicate) (k : Text) (is : List ℕ) → refers p ≡ false → Safe (write_indices p k is)
unfolding write_indices
write_indices-Safe p k is e = search (operand_rules, Safe-write p _ _ e) depth 8

ruleset info_rules = (
  operand_rules, Safe-write, write_condition-Safe, write_atomic_rmw_op-Safe, write_flag-Safe,
  write_optimization_info-Safe, write_atomic_info-Safe, write_calling_conv-Safe,
  write_alignment-Safe, write_ordering-Safe, write_indices-Safe,
)

module _ (x : Externals) where
  cast_inst-Safe :
      (g : CastGroup) (o : Operand) (ty : LlvmType)
      → refers g.instr ≡ false
      → refers g.to_type ≡ false
      → Safe (visit_cast_inst x g o ty)
  unfolding visit_cast_inst
  cast_inst-Safe g o ty e f = search (info_rules) depth 12

  visit_cast-Safe : (op : CastOpcode) (o : Operand) (ty : LlvmType) → Safe (visit_cast x op o ty)
  unfolding visit_cast cast_group refers
  visit_cast-Safe op_addrspacecast o ty = search info_rules
  visit_cast-Safe _ o ty = cast_inst-Safe _ o ty refl refl

  binary_inst-Safe :
      (g : BinaryGroup) (a b : Operand) (o : OptInfo)
      → refers g.instr ≡ false
      → Safe (visit_binary_inst x g a b o)
  unfolding visit_binary_inst
  binary_inst-Safe g a b o e = search info_rules depth 12

  visit_binary-Safe :
      (op : BinaryOpcode) (a b : Operand) (o : OptInfo)
      → Safe (visit_binary_inst x (binary_group op) a b o)
  unfolding binary_group refers
  visit_binary-Safe op_add a b o = binary_inst-Safe _ a b o refl
  visit_binary-Safe _ a b o = binary_inst-Safe _ a b o refl

  return_value-Safe : (k : Text) (v : Option Operand) → Safe (write_return_value x k v)
  unfolding write_return_value refers
  return_value-Safe k none = search info_rules
  return_value-Safe k (some v) = search info_rules

  gep_index-Safe : (k : Text) (i : ℕ) (o : Operand) → Safe (write_gep_index x k i o)
  unfolding write_gep_index refers
  gep_index-Safe k i o = search info_rules depth 8

  visit_call-Safe : (c : CallInfo) (t : Bool) → Safe (visit_call x c t)
  unfolding visit_call refers
  visit_call-Safe c t = search info_rules depth 12

  pub visit-Safe : (o : Opcode) → Safe (visit x o)
  unfolding visit visit_icmp visit_fcmp visit_select visit_va_arg visit_extract_value
      visit_insert_value visit_extract_element visit_insert_element visit_shuffle_vector visit_fneg
      visit_freeze visit_return visit_cond_branch visit_branch visit_switch visit_indirect_branch
      visit_invoke visit_resume visit_phi visit_landing_pad visit_dbg_declare visit_unreachable
      visit_alloca visit_load visit_store visit_cmpxchg visit_atomicrmw visit_fence visit_gep refers
  visit-Safe (cast_op op a ty) = visit_cast-Safe op a ty
  visit-Safe (binary_op op a b o) = visit_binary-Safe op a b o
  visit-Safe (call_op c t) = visit_call-Safe c t
  visit-Safe _ = search (info_rules, return_value-Safe, gep_index-Safe, visit_call-Safe) depth 16

  -- Whatever the outcome, the facts of a visited instruction keep the operand columns sound: each
  -- names a declared entity, if that held before.
  pub visit-HasIntegrity :
      (o : Opcode) (s : State) → HasIntegrity s → HasIntegrity (final (visit x o s))
  visit-HasIntegrity o s h = (Safe-Grows _ (visit-Safe o) s).sound h
