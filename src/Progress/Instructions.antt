-- ===== src/Progress/Instructions.antt =====
-- FactGenerator/src/InstructionVisitor.cpp: the visit of an instruction returns, if its comparison
-- predicate or read-modify-write operation has a name.
use cclyzerpp.Prelude.{ℕ, Text, Bool, Option, none, some, List}
use cclyzerpp.Predicates.{Predicate, BinaryGroup, CastGroup}
use cclyzerpp.Ir.{
  CastOpcode, op_addrspacecast, LlvmType, Operand, OptInfo, FpFlags, WrapInfo, no_wrap_info,
  overflowing, possibly_exact, AtomicInfo, CmpPredicate, RmwOp, CallInfo, AtomicOrdering,
  CallingConv, Opcode, cast_op, binary_op, call_op, icmp_op, fcmp_op, atomicrmw_op,
}
use cclyzerpp.Enums.{icmp_pred_string, atomic_binop_string}
use cclyzerpp.Externals.{Externals}
use cclyzerpp.Instruction.{visit}
use cclyzerpp.Instruction.Info.{
  checked, write_condition, write_atomic_rmw_op, write_flag, write_fp_flags, write_wrap_info,
  write_optimization_info, write_atomic_info,
}
use cclyzerpp.Instruction.Simple.{
  cast_group, write_indices, visit_cast_inst, visit_cast, visit_binary_inst, visit_icmp, visit_fcmp,
  visit_select, visit_va_arg, visit_extract_value, visit_insert_value, visit_extract_element,
  visit_insert_element, visit_shuffle_vector, visit_fneg, visit_freeze,
}
use cclyzerpp.Instruction.Control.{
  write_calling_conv, write_return_value, visit_return, visit_cond_branch, visit_branch,
  visit_switch, visit_indirect_branch, visit_invoke, visit_resume, visit_phi, visit_landing_pad,
  visit_call, visit_dbg_declare, visit_unreachable,
}
use cclyzerpp.Instruction.Memory.{
  write_alignment, write_ordering, write_gep_index, visit_alloca, visit_load, visit_store,
  visit_cmpxchg, visit_atomicrmw, visit_fence, visit_gep,
}
use cclyzerpp.Progress.Rules.{Answers, Answers-pure, Answers-bind, Answers-write}
use cclyzerpp.Progress.Constants.{operand_answers}

-- The text of an enumeration that has a name.
abbrev pub HasName : Option Text → Type 0
HasName none = ⊥
HasName (some t) = Unit {0}

checked-Answers : (t : Option Text) (reason : Text) → HasName t → Answers (checked t reason)
unfolding checked
checked-Answers none reason h = absurd h
checked-Answers (some t) reason h = Answers-pure t

write_condition-Answers :
    (p : Predicate) (k : Text) (c : CmpPredicate)
    → HasName (icmp_pred_string c)
    → Answers (write_condition p k c)
unfolding write_condition
write_condition-Answers p k c h =
    Answers-bind _ _ (checked-Answers _ _ h) (λ t. Answers-write _ _ _)

write_atomic_rmw_op-Answers :
    (k : Text) (op : RmwOp) → HasName (atomic_binop_string op) → Answers (write_atomic_rmw_op k op)
unfolding write_atomic_rmw_op
write_atomic_rmw_op-Answers k op h =
    Answers-bind _ _ (checked-Answers _ _ h) (λ t. Answers-write _ _ _)

write_flag-Answers : (k : Text) (b : Bool) (f : Text) → Answers (write_flag k b f)
unfolding write_flag
write_flag-Answers k b f = search operand_answers depth 8

write_fp_flags-Answers : (k : Text) (f : FpFlags) → Answers (write_fp_flags k f)
unfolding write_fp_flags
write_fp_flags-Answers k f = search (operand_answers, write_flag-Answers) depth 12

write_wrap_info-Answers : (k : Text) (w : WrapInfo) → Answers (write_wrap_info k w)
unfolding write_wrap_info
write_wrap_info-Answers k no_wrap_info = Answers-pure tt
write_wrap_info-Answers k (overflowing a b) = search (operand_answers, write_flag-Answers) depth 8
write_wrap_info-Answers k (possibly_exact b) = write_flag-Answers _ _ _

write_optimization_info-Answers : (k : Text) (o : OptInfo) → Answers (write_optimization_info k o)
unfolding write_optimization_info
write_optimization_info-Answers k o =
    search (operand_answers, write_flag-Answers, write_fp_flags-Answers, write_wrap_info-Answers)
      depth 8

write_atomic_info-Answers :
    (p : Predicate) (k : Text) (a : AtomicInfo) → Answers (write_atomic_info p k a)
unfolding write_atomic_info
write_atomic_info-Answers p k a = search (operand_answers, write_flag-Answers) depth 8

pub write_calling_conv-Answers :
    (p : Predicate) (k : Text) (c : CallingConv) → Answers (write_calling_conv p k c)
unfolding write_calling_conv
write_calling_conv-Answers p k c = search operand_answers depth 8

write_alignment-Answers : (p : Predicate) (k : Text) (n : ℕ) → Answers (write_alignment p k n)
unfolding write_alignment
write_alignment-Answers p k n = search operand_answers depth 8

write_ordering-Answers : (k : Text) (o : AtomicOrdering) → Answers (write_ordering k o)
unfolding write_ordering
write_ordering-Answers k o = search operand_answers depth 8

write_indices-Answers : (p : Predicate) (k : Text) (is : List ℕ) → Answers (write_indices p k is)
unfolding write_indices
write_indices-Answers p k is = search operand_answers depth 8

ruleset info_answers = (
  operand_answers, write_flag-Answers, write_optimization_info-Answers, write_atomic_info-Answers,
  write_calling_conv-Answers, write_alignment-Answers, write_ordering-Answers,
  write_indices-Answers,
)

-- The instruction's comparison predicate or read-modify-write operation has a name; fcmp and icmp
-- share the names.
abbrev pub IsNamed : Opcode → Type 0
IsNamed (icmp_op c a b) = HasName (icmp_pred_string c)
IsNamed (fcmp_op c a b) = HasName (icmp_pred_string c)
IsNamed (atomicrmw_op p v vol op a) = HasName (atomic_binop_string op)
IsNamed _ = Unit {0}

module _ (x : Externals) where
  cast_inst-Answers :
      (g : CastGroup) (o : Operand) (ty : LlvmType) → Answers (visit_cast_inst x g o ty)
  unfolding visit_cast_inst
  cast_inst-Answers g o ty = search info_answers depth 12

  visit_cast-Answers :
      (op : CastOpcode) (o : Operand) (ty : LlvmType) → Answers (visit_cast x op o ty)
  unfolding visit_cast cast_group
  visit_cast-Answers op_addrspacecast o ty = search info_answers
  visit_cast-Answers _ o ty = cast_inst-Answers _ o ty

  binary_inst-Answers :
      (g : BinaryGroup) (a b : Operand) (o : OptInfo) → Answers (visit_binary_inst x g a b o)
  unfolding visit_binary_inst
  binary_inst-Answers g a b o = search info_answers depth 12

  return_value-Answers : (k : Text) (v : Option Operand) → Answers (write_return_value x k v)
  unfolding write_return_value
  return_value-Answers k none = search info_answers
  return_value-Answers k (some v) = search info_answers

  gep_index-Answers : (k : Text) (i : ℕ) (o : Operand) → Answers (write_gep_index x k i o)
  unfolding write_gep_index
  gep_index-Answers k i o = search info_answers depth 8

  visit_call-Answers : (c : CallInfo) (t : Bool) → Answers (visit_call x c t)
  unfolding visit_call
  visit_call-Answers c t = search info_answers depth 12

  -- The visit of an instruction with a name returns.
  pub visit-Answers : (o : Opcode) → IsNamed o → Answers (visit x o)
  unfolding visit visit_icmp visit_fcmp visit_select visit_va_arg visit_extract_value
      visit_insert_value visit_extract_element visit_insert_element visit_shuffle_vector visit_fneg
      visit_freeze visit_return visit_cond_branch visit_branch visit_switch visit_indirect_branch
      visit_invoke visit_resume visit_phi visit_landing_pad visit_dbg_declare visit_unreachable
      visit_alloca visit_load visit_store visit_cmpxchg visit_atomicrmw visit_fence visit_gep
  visit-Answers (cast_op op a ty) h = visit_cast-Answers op a ty
  visit-Answers (binary_op op a b o) h = binary_inst-Answers _ a b o
  visit-Answers (call_op c t) h = visit_call-Answers c t
  visit-Answers (icmp_op c a b) h = search (info_answers, write_condition-Answers _ _ c h) depth 16
  visit-Answers (fcmp_op c a b) h = search (info_answers, write_condition-Answers _ _ c h) depth 16
  visit-Answers (atomicrmw_op p v vol op a) h =
      search (info_answers, write_atomic_rmw_op-Answers _ op h) depth 16
  visit-Answers _ h =
      search (info_answers, return_value-Answers, gep_index-Answers, visit_call-Answers) depth 16
