-- ===== src/Instruction/Simple.antt =====
-- FactGenerator/src/InstructionVisitor.cpp and InstructionVisitor.hpp: conversions, binary
-- operators, comparisons, vector, aggregate and other instructions.
use cclyzerpp.Prelude.{ℕ, Text, List, [], ◌∷◌, length}
use cclyzerpp.Predicates.{
  Predicate, CastGroup, trunc, zext, sext, fptrunc, fpext, fptoui, fptosi, uitofp, sitofp, ptrtoint,
  inttoptr, bitcast, BinaryGroup, add, fadd, sub, fsub, mul, fmul, sdiv, fdiv, udiv, srem, frem,
  urem, shl, lshr, ashr, and_, or_, xor_, extractvalue, insertvalue, extractelement, insertelement,
  shufflevector, icmp, fcmp, select, va_arg, fneg, freeze,
}
use cclyzerpp.Ir.{
  CastOpcode, op_trunc, op_zext, op_sext, op_fptrunc, op_fpext, op_fptoui, op_fptosi, op_uitofp,
  op_sitofp, op_ptrtoint, op_inttoptr, op_bitcast, op_addrspacecast, BinaryOpcode, op_add, op_fadd,
  op_sub, op_fsub, op_mul, op_fmul, op_sdiv, op_fdiv, op_udiv, op_srem, op_frem, op_urem, op_shl,
  op_lshr, op_ashr, op_and, op_or, op_xor, LlvmType, Operand, OptInfo, CmpPredicate,
}
use cclyzerpp.Prelude.{Option, none, some, text}
use cclyzerpp.Externals.{Externals}
use cclyzerpp.Gen.{Gen, ◌>>=◌, ◌>>◌, for_indexed, str, num, write_fact, record_type, unknown}
use cclyzerpp.Instruction.Operands.{record_instruction, put_operand}
use cclyzerpp.Instruction.Info.{write_condition, write_optimization_info}

-- The group of each cast method; an address space cast has no method of its own.
unfoldable pub cast_group : CastOpcode → Option CastGroup
cast_group op_trunc = some trunc
cast_group op_zext = some zext
cast_group op_sext = some sext
cast_group op_fptrunc = some fptrunc
cast_group op_fpext = some fpext
cast_group op_fptoui = some fptoui
cast_group op_fptosi = some fptosi
cast_group op_uitofp = some uitofp
cast_group op_sitofp = some sitofp
cast_group op_ptrtoint = some ptrtoint
cast_group op_inttoptr = some inttoptr
cast_group op_bitcast = some bitcast
cast_group op_addrspacecast = none

unfoldable pub binary_group : BinaryOpcode → BinaryGroup
binary_group op_add = add
binary_group op_fadd = fadd
binary_group op_sub = sub
binary_group op_fsub = fsub
binary_group op_mul = mul
binary_group op_fmul = fmul
binary_group op_sdiv = sdiv
binary_group op_fdiv = fdiv
binary_group op_udiv = udiv
binary_group op_srem = srem
binary_group op_frem = frem
binary_group op_urem = urem
binary_group op_shl = shl
binary_group op_lshr = lshr
binary_group op_ashr = ashr
binary_group op_and = and_
binary_group op_or = or_
binary_group op_xor = xor_

-- Constant indices of `extractvalue` and `insertvalue`.
unfoldable pub write_indices : Predicate → Text → List ℕ → Gen (Unit {0})
write_indices p iref indices = for_indexed 0 indices (λ i n. write_fact p iref (num i ∷ num n ∷ []))

module _ (x : Externals) where
  -- `_visitCastInst`
  unfoldable pub visit_cast_inst : CastGroup → Operand → LlvmType → Gen (Unit {0})
  visit_cast_inst g operand ty = do
    iref ← record_instruction g.instr
    put_operand x g.from_operand iref operand
    t ← record_type ty
    write_fact g.to_type iref (str t ∷ [])

  unfoldable pub visit_cast : CastOpcode → Operand → LlvmType → Gen (Unit {0})
  visit_cast op operand ty = elim (cast_group op) [
    | none ↦ unknown (text "instruction") (text "addrspacecast")
    | some g ↦ visit_cast_inst g operand ty
  ]

  -- `_visitBinaryInst`
  unfoldable pub visit_binary_inst : BinaryGroup → Operand → Operand → OptInfo → Gen (Unit {0})
  visit_binary_inst g a b o = do
    iref ← record_instruction g.instr
    put_operand x g.first_operand iref a
    put_operand x g.second_operand iref b
    write_optimization_info iref o

  unfoldable pub visit_icmp : CmpPredicate → Operand → Operand → Gen (Unit {0})
  visit_icmp c a b = do
    iref ← record_instruction icmp.instr
    write_condition icmp.condition iref c
    put_operand x icmp.first_operand iref a
    put_operand x icmp.second_operand iref b

  unfoldable pub visit_fcmp : CmpPredicate → Operand → Operand → Gen (Unit {0})
  visit_fcmp c a b = do
    iref ← record_instruction fcmp.instr
    write_condition fcmp.condition iref c
    put_operand x fcmp.first_operand iref a
    put_operand x fcmp.second_operand iref b

  unfoldable pub visit_select : Operand → Operand → Operand → Gen (Unit {0})
  visit_select c a b = do
    iref ← record_instruction select.instr
    put_operand x select.condition iref c
    put_operand x select.first_operand iref a
    put_operand x select.second_operand iref b

  unfoldable pub visit_va_arg : LlvmType → Operand → Gen (Unit {0})
  visit_va_arg ty pointer = do
    iref ← record_instruction va_arg.instr
    t ← record_type ty
    write_fact va_arg.type iref (str t ∷ [])
    put_operand x va_arg.va_list iref pointer

  unfoldable pub visit_extract_value : Operand → List ℕ → Gen (Unit {0})
  visit_extract_value base indices = do
    iref ← record_instruction extractvalue.instr
    put_operand x extractvalue.base iref base
    write_indices extractvalue.index iref indices
    write_fact extractvalue.nindices iref (num (length indices) ∷ [])

  unfoldable pub visit_insert_value : Operand → Operand → List ℕ → Gen (Unit {0})
  visit_insert_value base value indices = do
    iref ← record_instruction insertvalue.instr
    put_operand x insertvalue.base iref base
    put_operand x insertvalue.value iref value
    write_indices insertvalue.index iref indices
    write_fact insertvalue.nindices iref (num (length indices) ∷ [])

  unfoldable pub visit_extract_element : Operand → Operand → Gen (Unit {0})
  visit_extract_element vector index = do
    iref ← record_instruction extractelement.instr
    put_operand x extractelement.base iref vector
    put_operand x extractelement.index iref index

  unfoldable pub visit_insert_element : Operand → Operand → Operand → Gen (Unit {0})
  visit_insert_element vector value index = do
    iref ← record_instruction insertelement.instr
    put_operand x insertelement.base iref vector
    put_operand x insertelement.value iref value
    put_operand x insertelement.index iref index

  unfoldable pub visit_shuffle_vector : Operand → Operand → Operand → Gen (Unit {0})
  visit_shuffle_vector a b mask = do
    iref ← record_instruction shufflevector.instr
    put_operand x shufflevector.first_vector iref a
    put_operand x shufflevector.second_vector iref b
    put_operand x shufflevector.mask iref mask

  unfoldable pub visit_fneg : Operand → Gen (Unit {0})
  visit_fneg a = do iref ← record_instruction fneg.instr; put_operand x fneg.operand iref a

  unfoldable pub visit_freeze : Operand → Gen (Unit {0})
  visit_freeze a = do iref ← record_instruction freeze.instr; put_operand x freeze.operand iref a
