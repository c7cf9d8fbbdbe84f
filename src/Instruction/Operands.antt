-- ===== src/Instruction/Operands.antt =====
-- FactGenerator/src/InstructionVisitor.cpp, the generic methods: an instruction entity, the record
-- of a value, and the operand facts.
use cclyzerpp.Prelude.{ℕ, Text, [], ◌∷◌}
use cclyzerpp.Predicates.{Predicate}
use cclyzerpp.Ir.{header, Operand, constant_operand, asm_operand, variable_operand}
use cclyzerpp.Refmode.{value_refmode}
use cclyzerpp.Externals.{Externals}
use cclyzerpp.Constants.{write_constant}
use cclyzerpp.Assembly.{write_asm}
use cclyzerpp.Gen.{
  Gen, pure, ◌>>=◌, ◌>>◌, str, num, write_fact, record_variable, refmode, instruction_ref,
}

unfoldable pub record_instruction : Predicate → Gen Text
record_instruction p = do iref ← instruction_ref; write_fact p iref []; pure iref

module _ (x : Externals) where
  unfoldable pub record_value : Operand → Gen Text
  record_value (constant_operand c) = write_constant x c
  record_value (asm_operand a) = write_asm x a
  record_value (variable_operand v) = do
    r ← refmode (value_refmode v)
    record_variable r (header v).type
    pure r

  -- `writeInstrOperand` without an index
  unfoldable pub write_instr_operand : Predicate → Text → Operand → Gen Text
  write_instr_operand p instr operand = do
    r ← record_value operand
    write_fact p instr (str r ∷ [])
    pure r

  -- `writeInstrOperand` with an index
  unfoldable pub write_indexed_operand : Predicate → Text → Operand → ℕ → Gen Text
  write_indexed_operand p instr operand index = do
    r ← record_value operand
    write_fact p instr (num index ∷ str r ∷ [])
    pure r

  -- The same for their effect: the caller drops the refmode.
  abbrev pub put_operand : Predicate → Text → Operand → Gen (Unit {0})
  put_operand p instr operand = do r ← write_instr_operand p instr operand; pure tt

  abbrev pub put_indexed : Predicate → Text → Operand → ℕ → Gen (Unit {0})
  put_indexed p instr operand index = do r ← write_indexed_operand p instr operand index; pure tt
