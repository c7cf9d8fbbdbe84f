-- ===== src/Instruction/Control.antt =====
-- FactGenerator/src/InstructionVisitor.cpp: terminators, phi nodes, landing pads and calls.
use cclyzerpp.Prelude.{
  Text, Bool, true, false, not, Option, none, some, List, [], ◌∷◌, length, if◌then◌else◌,
}
use cclyzerpp.Predicates.{
  Predicate, ret, br, switch_, indirectbr, invoke, resume, unreachable, phi, landingpad, call,
  variable,
}
use cclyzerpp.Ir.{CallingConv, cc_c, LlvmType, Operand, CallInfo, DbgInfo}
use cclyzerpp.Enums.{calling_conv_to_string}
use cclyzerpp.Refmode.{value_refmode}
use cclyzerpp.Externals.{Externals}
use cclyzerpp.Gen.{
  Gen, pure, ◌>>=◌, ◌>>◌, when, when_some, for_indexed, str, num, write_fact, record_type, refmode,
}
use cclyzerpp.Instruction.Operands.{record_instruction, put_operand, put_indexed}

-- `cc != llvm::CallingConv::C`
abbrev pub is_c : CallingConv → Bool
is_c cc_c = true
is_c _ = false

-- The calling convention, if it is not the default.
unfoldable pub write_calling_conv : Predicate → Text → CallingConv → Gen (Unit {0})
write_calling_conv p key cc =
    when (not (is_c cc)) (write_fact p key (str (calling_conv_to_string cc) ∷ []))

module _ (x : Externals) where
  unfoldable pub write_return_value : Text → Option Operand → Gen (Unit {0})
  write_return_value iref none = write_fact ret.void_ iref []
  write_return_value iref (some v) = put_operand x ret.operand iref v

  unfoldable pub visit_return : Option Operand → Gen (Unit {0})
  visit_return value = do iref ← record_instruction ret.instr; write_return_value iref value

  unfoldable pub visit_cond_branch : Operand → Operand → Operand → Gen (Unit {0})
  visit_cond_branch condition true_label false_label = do
    iref ← record_instruction br.instr
    write_fact br.cond iref []
    put_operand x br.condition iref condition
    put_operand x br.true_label iref true_label
    put_operand x br.false_label iref false_label

  unfoldable pub visit_branch : Operand → Gen (Unit {0})
  visit_branch label = do
    iref ← record_instruction br.instr
    write_fact br.uncond iref []
    put_operand x br.uncond_label iref label

  unfoldable pub visit_switch : Operand → Operand → List (Operand × Operand) → Gen (Unit {0})
  visit_switch value default_label cases = do
    iref ← record_instruction switch_.instr
    put_operand x switch_.operand iref value
    put_operand x switch_.default_label iref default_label
    for_indexed 0 cases (λ i c. do
      put_indexed x switch_.case_value iref c.0 i
      put_indexed x switch_.case_label iref c.1 i)
    write_fact switch_.ncases iref (num (length cases) ∷ [])

  unfoldable pub visit_indirect_branch : Operand → List Operand → Gen (Unit {0})
  visit_indirect_branch address labels = do
    iref ← record_instruction indirectbr.instr
    for_indexed 0 labels (λ i l. put_indexed x indirectbr.label iref l i)
    write_fact indirectbr.nlabels iref (num (length labels) ∷ [])
    put_operand x indirectbr.address iref address

  unfoldable pub visit_invoke : CallInfo → Operand → Operand → Gen (Unit {0})
  visit_invoke c normal unwind = do
    iref ← record_instruction invoke.instr
    put_operand x invoke.func_operand iref c.callee
    for_indexed 0 c.args (λ i a. put_indexed x invoke.arg iref a i)
    put_operand x invoke.normal_label iref normal
    put_operand x invoke.exception_label iref unwind
    write_calling_conv invoke.calling_conv iref c.calling_conv

  unfoldable pub visit_resume : Operand → Gen (Unit {0})
  visit_resume value = do
    iref ← record_instruction resume.instr
    put_operand x resume.operand iref value

  unfoldable pub visit_phi : LlvmType → List (Operand × Operand) → Gen (Unit {0})
  visit_phi ty pairs = do
    iref ← record_instruction phi.instr
    t ← record_type ty
    write_fact phi.type iref (str t ∷ [])
    for_indexed 0 pairs
        (λ i p. do put_indexed x phi.pair_value iref p.0 i; put_indexed x phi.pair_label iref p.1 i)
    write_fact phi.npairs iref (num (length pairs) ∷ [])

  unfoldable pub visit_landing_pad : LlvmType → Bool → List (Bool × Operand) → Gen (Unit {0})
  visit_landing_pad ty cleanup clauses = do
    iref ← record_instruction landingpad.instr
    t ← record_type ty
    write_fact landingpad.type iref (str t ∷ [])
    when cleanup (write_fact landingpad.cleanup iref [])
    for_indexed 0 clauses (λ i c.
        put_indexed x (if c.0 then landingpad.catch_clause else landingpad.filter_clause) iref c.1
          i)
    write_fact landingpad.nclauses iref (num (length clauses) ∷ [])

  unfoldable pub visit_call : CallInfo → Bool → Gen (Unit {0})
  visit_call c is_tail = do
    iref ← record_instruction call.instr
    put_operand x call.func_operand iref c.callee
    for_indexed 0 c.args (λ i a. put_indexed x call.arg iref a i)
    when is_tail (write_fact call.tail_opt iref [])
    write_calling_conv call.calling_conv iref c.calling_conv

  unfoldable pub visit_dbg_declare : CallInfo → Bool → DbgInfo → Gen (Unit {0})
  visit_dbg_declare c is_tail d = do
    visit_call c is_tail
    when_some d.target (λ address. do
      r ← refmode (value_refmode address)
      when_some d.variable (λ n. write_fact variable.source_name r (str n ∷ []))
      when_some d.location (λ l. write_fact variable.pos r (num l.0 ∷ num l.1 ∷ [])))

unfoldable pub visit_unreachable : Gen (Unit {0})
visit_unreachable = do iref ← record_instruction unreachable.instr; pure tt
