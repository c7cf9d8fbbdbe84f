-- ===== src/Instruction/Memory.antt =====
-- FactGenerator/src/InstructionVisitor.cpp: memory instructions (LLVM 14: an alignment is a number
-- of bytes, written unless it is 0).
use cclyzerpp.Prelude.{
  ℕ, Text, text, is_empty, Bool, not, Option, none, List, [], ◌∷◌, length, ◌==◌,
}
use cclyzerpp.Predicates.{
  Predicate, constant, alloca, load, store, fence, atomicrmw, cmpxchg, getelementptr,
}
use cclyzerpp.Ir.{
  LlvmType, Operand, constant_operand, asm_operand, variable_operand, small_integer, Access,
  AtomicInfo, AtomicOrdering, RmwOp,
}
use cclyzerpp.Enums.{atomic_ordering_to_string}
use cclyzerpp.Externals.{Externals}
use cclyzerpp.Gen.{
  Gen, ◌>>=◌, ◌>>◌, when, when_some, for_indexed, str, num, write_fact, record_type,
}
use cclyzerpp.Instruction.Operands.{record_instruction, put_operand, write_indexed_operand}
use cclyzerpp.Instruction.Info.{write_flag, write_atomic_info, write_atomic_rmw_op}

unfoldable pub write_alignment : Predicate → Text → ℕ → Gen (Unit {0})
write_alignment p iref alignment =
    when (not (alignment == 0)) (write_fact p iref (num alignment ∷ []))

-- The unsigned text of a constant operand's unique integer, if it fits 16 bits.
abbrev pub operand_integer : Operand → Option Text
operand_integer (constant_operand c) = small_integer c
operand_integer (asm_operand a) = none
operand_integer (variable_operand v) = none

unfoldable pub write_ordering : Text → AtomicOrdering → Gen (Unit {0})
write_ordering iref o = do
  let t = atomic_ordering_to_string o
  when (not (is_empty t)) (write_fact cmpxchg.ordering iref (str t ∷ []))

module _ (x : Externals) where
  unfoldable pub visit_alloca : LlvmType → Option Operand → ℕ → Gen (Unit {0})
  visit_alloca ty size alignment = do
    iref ← record_instruction alloca.instr
    t ← record_type ty
    write_fact alloca.type iref (str t ∷ [])
    when_some size (λ n. put_operand x alloca.size iref n)
    write_alignment alloca.alignment iref alignment

  unfoldable pub visit_load : Operand → Access → Gen (Unit {0})
  visit_load pointer a = do
    iref ← record_instruction load.instr
    put_operand x load.address iref pointer
    when_some a.atomic (λ i. write_atomic_info load.ordering iref i)
    write_alignment load.alignment iref a.alignment
    when a.is_volatile (write_fact load.is_volatile iref [])

  unfoldable pub visit_store : Operand → Operand → Access → Gen (Unit {0})
  visit_store value pointer a = do
    iref ← record_instruction store.instr
    put_operand x store.value iref value
    put_operand x store.address iref pointer
    when_some a.atomic (λ i. write_atomic_info store.ordering iref i)
    write_alignment store.alignment iref a.alignment
    when a.is_volatile (write_fact store.is_volatile iref [])

  unfoldable pub visit_cmpxchg :
      Operand → Operand → Operand → Bool → AtomicOrdering → AtomicOrdering → Bool → Gen (Unit {0})
  visit_cmpxchg pointer compared new_value is_volatile success failure single_thread = do
    iref ← record_instruction cmpxchg.instr
    put_operand x cmpxchg.address iref pointer
    put_operand x cmpxchg.cmp_value iref compared
    put_operand x cmpxchg.new_value iref new_value
    when is_volatile (write_fact cmpxchg.is_volatile iref [])
    write_flag iref single_thread (text "singlethread")
    write_ordering iref success
    write_ordering iref failure

  unfoldable pub visit_atomicrmw : Operand → Operand → Bool → RmwOp → AtomicInfo → Gen (Unit {0})
  visit_atomicrmw pointer value is_volatile op a = do
    iref ← record_instruction atomicrmw.instr
    put_operand x atomicrmw.address iref pointer
    put_operand x atomicrmw.value iref value
    when is_volatile (write_fact atomicrmw.is_volatile iref [])
    write_atomic_rmw_op iref op
    write_atomic_info atomicrmw.ordering iref a

  unfoldable pub visit_fence : AtomicInfo → Gen (Unit {0})
  visit_fence a = do iref ← record_instruction fence.instr; write_atomic_info fence.ordering iref a

  -- One index operand; the source's loop counts from 1 and writes `index - 1`.
  unfoldable pub write_gep_index : Text → ℕ → Operand → Gen (Unit {0})
  write_gep_index iref i operand = do
    opref ← write_indexed_operand x getelementptr.index iref operand i
    when_some (operand_integer operand) (λ n. write_fact constant.to_integer opref (str n ∷ []))

  unfoldable pub visit_gep : Operand → List Operand → Bool → Gen (Unit {0})
  visit_gep base indices in_bounds = do
    iref ← record_instruction getelementptr.instr
    put_operand x getelementptr.base iref base
    for_indexed 0 indices (write_gep_index iref)
    write_fact getelementptr.nindices iref (num (length indices) ∷ [])
    when in_bounds (write_fact getelementptr.inbounds iref [])
