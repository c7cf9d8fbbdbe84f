-- ===== src/Progress/Constants.antt =====
-- FactGenerator/src/Constants.cpp and Assembly.cpp: writing a constant or an operand returns.
use cclyzerpp.Prelude.{ℕ, suc, Text, Option}
use cclyzerpp.Predicates.{Predicate}
use cclyzerpp.Ir.{
  Header, CastOpcode, op_bitcast, op_inttoptr, op_ptrtoint, Operand, constant_operand, asm_operand,
  variable_operand, Constant, Constants, const, Form, cast_expr, gep_expr, array_form, struct_form,
  vector_form, nil, cons, InlineAsm,
}
use cclyzerpp.Externals.{Externals}
use cclyzerpp.Constants.{
  write_constant_entity, write_constant_cast, write_constant, write_form, write_operands,
}
use cclyzerpp.Assembly.{write_asm}
use cclyzerpp.Gen.{Gen}
use cclyzerpp.Instruction.Operands.{
  record_value, write_instr_operand, write_indexed_operand, record_instruction,
}
use cclyzerpp.Progress.Rules.{Answers, Answers-pure, Answers-bind, Answers-write, answer_rules}

write_constant_entity-Answers : (x : Externals) (c : Constant) → Answers (write_constant_entity x c)
unfolding write_constant_entity
write_constant_entity-Answers x (const h small form) = search answer_rules depth 20

cast-Answers :
    (op : CastOpcode) (m : Gen Text) (id : Text) → Answers m → Answers (write_constant_cast op m id)
unfolding write_constant_cast
cast-Answers op_bitcast m id h = search answer_rules depth 8
cast-Answers op_inttoptr m id h = search answer_rules depth 8
cast-Answers op_ptrtoint m id h = search answer_rules depth 8
cast-Answers _ m id h = Answers-pure tt

mutual
  unfolding write_constant write_form write_operands

  write_constant-Answers' : (x : Externals) (c : Constant) → Answers (write_constant x c)
  write_constant-Answers' x (const h small form) =
      Answers-bind _ _ (write_constant_entity-Answers x (const h small form))
        (λ id. Answers-bind _ _ (write_form-Answers x h small form id) (λ u. Answers-pure id))

  write_form-Answers :
      (x : Externals) (h : Header) (small : Option Text) (f : Form) (id : Text)
      → Answers (write_form x h small f id)
  write_form-Answers x h small (cast_expr op c) id =
      Answers-bind _ _ (Answers-write _ _ _)
        (λ u. cast-Answers op (write_constant x c) id (write_constant-Answers' x c))
  write_form-Answers x h small (gep_expr base indices) id =
      Answers-bind _ _ (Answers-write _ _ _) (λ u.
        Answers-bind _ _ (write_constant-Answers' x base) (λ r.
          Answers-bind _ _ (Answers-write _ _ _) (λ u.
            Answers-bind _ _ (write_operands-Answers x _ id 0 indices)
              (λ u. search answer_rules depth 8))))
  write_form-Answers x h small (array_form cs) id =
      Answers-bind _ _ (write_operands-Answers x _ id 0 cs) (λ u. search answer_rules depth 8)
  write_form-Answers x h small (struct_form cs) id =
      Answers-bind _ _ (write_operands-Answers x _ id 0 cs) (λ u. search answer_rules depth 8)
  write_form-Answers x h small (vector_form cs) id =
      Answers-bind _ _ (write_operands-Answers x _ id 0 cs) (λ u. search answer_rules depth 8)
  write_form-Answers x h small _ id = search answer_rules depth 12

  write_operands-Answers :
      (x : Externals) (p : Predicate) (id : Text) (i : ℕ) (cs : Constants)
      → Answers (write_operands x p id i cs)
  write_operands-Answers x p id i nil = Answers-pure tt
  write_operands-Answers x p id i (cons c cs) =
      Answers-bind _ _ (write_constant-Answers' x c) (λ r.
        Answers-bind _ _ (Answers-write _ _ _) (λ u. write_operands-Answers x p id (suc i) cs))

pub write_constant-Answers : (x : Externals) (c : Constant) → Answers (write_constant x c)
write_constant-Answers = write_constant-Answers'

write_asm-Answers : (x : Externals) (a : InlineAsm) → Answers (write_asm x a)
unfolding write_asm
write_asm-Answers x a = search answer_rules depth 24

pub record_value-Answers : (x : Externals) (o : Operand) → Answers (record_value x o)
unfolding record_value
record_value-Answers x (constant_operand c) = write_constant-Answers x c
record_value-Answers x (asm_operand a) = write_asm-Answers x a
record_value-Answers x (variable_operand v) = search answer_rules depth 8

pub write_instr_operand-Answers :
    (x : Externals) (p : Predicate) (key : Text) (o : Operand)
    → Answers (write_instr_operand x p key o)
unfolding write_instr_operand
write_instr_operand-Answers x p key o = search (answer_rules, record_value-Answers) depth 8

pub write_indexed_operand-Answers :
    (x : Externals) (p : Predicate) (key : Text) (o : Operand) (i : ℕ)
    → Answers (write_indexed_operand x p key o i)
unfolding write_indexed_operand
write_indexed_operand-Answers x p key o i = search (answer_rules, record_value-Answers) depth 8

pub record_instruction-Answers : (p : Predicate) → Answers (record_instruction p)
unfolding record_instruction
record_instruction-Answers p = search answer_rules depth 8

pub ruleset operand_answers = (
  answer_rules, record_value-Answers, write_instr_operand-Answers, write_indexed_operand-Answers,
  record_instruction-Answers,
)
