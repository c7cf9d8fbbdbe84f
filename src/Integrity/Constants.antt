-- ===== src/Integrity/Constants.antt =====
-- Writing a constant, inline assembly or an operand keeps integrity, and supplies its refmode.
use cclyzerpp.Prelude.{subst, ℕ, suc, Text, Option, [], ◌∷◌, ◌≡◌, refl, inr, false}
use cclyzerpp.Predicates.{Predicate}
use cclyzerpp.Ir.{
  Header, Value, CastOpcode, op_bitcast, op_inttoptr, op_ptrtoint, Constant, Constants, const, Form,
  null_pointer, integer, floating, function_form, global_variable_form, undef, cast_expr, gep_expr,
  array_form, struct_form, vector_form, other_expr, other_form, nil, cons, InlineAsm, Operand,
  constant_operand, asm_operand, variable_operand,
}
use cclyzerpp.Refmode.Stack.{constant_refmode-KeepsStack, value_refmode-KeepsStack, pure-KeepsStack}
use cclyzerpp.Externals.{Externals}
use cclyzerpp.Constants.{
  write_constant_entity, write_constant_cast, write_constant, write_form, write_operands,
}
use cclyzerpp.Assembly.{write_asm}
use cclyzerpp.Gen.{Gen, pure, ◌>>=◌, str, num, done, State, record_variable, refmode}
use cclyzerpp.Instruction.Operands.{
  record_value, write_instr_operand, write_indexed_operand, record_instruction,
}
use cclyzerpp.Integrity.{refers, Known}
use cclyzerpp.Integrity.Rules.{
  KnownIn, Safe, Supplies, Returns, Safe-pure, Safe-stop, Safe-bind, Safe-when, Safe-when_some,
  Safe-for_each, Safe-for_indexed, Safe-if, Safe-write, Safe-operand, Safe-operand_then,
  Safe-operand_after, Returns-pure, Returns-bind, Supplies-entity, Supplies-then,
}
use cclyzerpp.Integrity.Primitives.{
  Safe-insert_type, Safe-record_type, Safe-save_result, Safe-unknown, Safe-instruction_ref,
  Safe-current_function, Safe-record_variable, Safe-refmode, has_variable-assign_self,
}

pub ruleset safe_rules = (
  Safe-pure, Safe-stop, Safe-bind, Safe-when, Safe-when_some, Safe-for_each, Safe-for_indexed,
  Safe-if, Safe-insert_type, Safe-record_type, Safe-save_result, Safe-unknown, Safe-instruction_ref,
  Safe-current_function, Safe-record_variable, Safe-refmode, constant_refmode-KeepsStack,
  value_refmode-KeepsStack, pure-KeepsStack,
)

write_constant_entity-Safe : (x : Externals) (c : Constant) → Safe (write_constant_entity x c)
unfolding write_constant_entity refers
write_constant_entity-Safe x (const h small form) = search (safe_rules, Safe-write) depth 20

write_constant_entity-Supplies :
    (x : Externals) (c : Constant) → Supplies (write_constant_entity x c)
unfolding write_constant_entity refers
write_constant_entity-Supplies x (const h small form) =
    Supplies-entity _ (λ r. search (safe_rules, Safe-write) depth 20)
      (λ r. search (Returns-bind, Returns-pure) depth 20) _

-- The constant casts, given that the operand's refmode is supplied.
cast-Safe :
    (op : CastOpcode) (m : Gen Text) (id : Text)
    → Safe m
    → Supplies m
    → Safe (write_constant_cast op m id)
unfolding write_constant_cast refers
cast-Safe op_bitcast m id h k =
    Safe-operand_after _ _ (λ r. str r ∷ []) (λ r. refl) _ (λ r. Safe-write _ _ _ refl) m h k
cast-Safe op_inttoptr m id h k =
    Safe-operand_after _ _ (λ r. str r ∷ []) (λ r. refl) _ (λ r. Safe-write _ _ _ refl) m h k
cast-Safe op_ptrtoint m id h k =
    Safe-operand_after _ _ (λ r. str r ∷ []) (λ r. refl) _ (λ r. Safe-write _ _ _ refl) m h k
cast-Safe _ m id h k = Safe-pure tt

mutual
  unfolding write_constant write_form write_operands write_constant_cast refers

  write_constant-Safe' : (x : Externals) (c : Constant) → Safe (write_constant x c)
  write_constant-Safe' x (const h small form) =
      Safe-bind _ _ (write_constant_entity-Safe x (const h small form))
        (λ id. Safe-bind _ _ (write_form-Safe x h small form id) (λ u. Safe-pure id))

  write_form-Safe :
      (x : Externals) (h : Header) (small : Option Text) (f : Form) (id : Text)
      → Safe (write_form x h small f id)
  write_form-Safe x h small null_pointer id = search (safe_rules, Safe-write) depth 20
  write_form-Safe x h small integer id = search (safe_rules, Safe-write) depth 20
  write_form-Safe x h small floating id = search (safe_rules, Safe-write) depth 20
  write_form-Safe x h small function_form id = search (safe_rules, Safe-write) depth 20
  write_form-Safe x h small global_variable_form id = search (safe_rules, Safe-write) depth 20
  write_form-Safe x h small undef id = search (safe_rules, Safe-write) depth 20
  write_form-Safe x h small (cast_expr op c) id = Safe-bind _ _ (Safe-write _ _ _ refl) (λ u.
      cast-Safe op (write_constant x c) id (write_constant-Safe' x c)
        (write_constant-Supplies' x c))
  write_form-Safe x h small (gep_expr base indices) id = Safe-bind _ _ (Safe-write _ _ _ refl) (λ u.
      Safe-operand_then _ _ (λ r. str r ∷ []) (λ r. refl) _ _ (write_constant-Safe' x base)
        (write_constant-Supplies' x base)
        (λ r.
          Safe-bind _ _ (write_operands-Safe x _ id 0 indices)
            (λ u. search (safe_rules, Safe-write) depth 20)))
  write_form-Safe x h small (array_form cs) id =
      Safe-bind _ _ (write_operands-Safe x _ id 0 cs)
        (λ u. search (safe_rules, Safe-write) depth 20)
  write_form-Safe x h small (struct_form cs) id =
      Safe-bind _ _ (write_operands-Safe x _ id 0 cs)
        (λ u. search (safe_rules, Safe-write) depth 20)
  write_form-Safe x h small (vector_form cs) id =
      Safe-bind _ _ (write_operands-Safe x _ id 0 cs)
        (λ u. search (safe_rules, Safe-write) depth 20)
  write_form-Safe x h small other_expr id = search (safe_rules, Safe-write) depth 20
  write_form-Safe x h small other_form id = search (safe_rules, Safe-write) depth 20

  write_operands-Safe :
      (x : Externals) (p : Predicate) (id : Text) (i : ℕ) (cs : Constants)
      → Safe (write_operands x p id i cs)
  write_operands-Safe x p id i nil = Safe-pure tt
  write_operands-Safe x p id i (cons c cs) =
      Safe-operand_then p id (λ r. num i ∷ str r ∷ []) (λ r. refl) _ _ (write_constant-Safe' x c)
        (write_constant-Supplies' x c) (λ r. write_operands-Safe x p id (suc i) cs)

  write_constant-Supplies' : (x : Externals) (c : Constant) → Supplies (write_constant x c)
  write_constant-Supplies' x (const h small form) =
      Supplies-then _ _
        (λ id. Safe-bind _ _ (write_form-Safe x h small form id) (λ u. Safe-pure id))
        (λ id. Returns-bind id _ _ (λ u. Returns-pure id))
        (write_constant_entity-Supplies x (const h small form))

pub write_constant-Safe : (x : Externals) (c : Constant) → Safe (write_constant x c)
write_constant-Safe = write_constant-Safe'

pub write_constant-Supplies : (x : Externals) (c : Constant) → Supplies (write_constant x c)
write_constant-Supplies = write_constant-Supplies'

write_asm-Safe : (x : Externals) (a : InlineAsm) → Safe (write_asm x a)
unfolding write_asm refers
write_asm-Safe x a = search (safe_rules, Safe-write) depth 24

write_asm-Supplies : (x : Externals) (a : InlineAsm) → Supplies (write_asm x a)
unfolding write_asm refers
write_asm-Supplies x a =
    Supplies-entity _ (λ r. search (safe_rules, Safe-write) depth 24)
      (λ r. search (Returns-bind, Returns-pure) depth 24) _

-- A variable's refmode becomes a key of `variableTypes`.
variable_operand-Supplies :
    (x : Externals) (v : Value) → Supplies (record_value x (variable_operand v))
unfolding record_value ◌>>=◌ refmode record_variable pure
variable_operand-Supplies x v = record {
  at = λ s. inr (inr (has_variable-assign_self _ _ s.variable_types));
}

pub record_value-Safe : (x : Externals) (o : Operand) → Safe (record_value x o)
unfolding record_value
record_value-Safe x (constant_operand c) = write_constant-Safe x c
record_value-Safe x (asm_operand a) = write_asm-Safe x a
record_value-Safe x (variable_operand v) = search safe_rules depth 8

-- The refmode that `recordValue` returns is that of a declared entity.
pub record_value-Supplies : (x : Externals) (o : Operand) → Supplies (record_value x o)
unfolding record_value
record_value-Supplies x (constant_operand c) = write_constant-Supplies x c
record_value-Supplies x (asm_operand a) = write_asm-Supplies x a
record_value-Supplies x (variable_operand v) = variable_operand-Supplies x v

module _ (x : Externals) (p : Predicate) (key : Text) (o : Operand) where
  pub write_instr_operand-Safe : Safe (write_instr_operand x p key o)
  unfolding write_instr_operand
  write_instr_operand-Safe =
      Safe-operand_then p key (λ r. str r ∷ []) (λ r. refl) _ _ (record_value-Safe x o)
        (record_value-Supplies x o) (λ r. Safe-pure r)

  pub write_indexed_operand-Safe : (i : ℕ) → Safe (write_indexed_operand x p key o i)
  unfolding write_indexed_operand
  write_indexed_operand-Safe i =
      Safe-operand_then p key (λ r. num i ∷ str r ∷ []) (λ r. refl) _ _ (record_value-Safe x o)
        (record_value-Supplies x o) (λ r. Safe-pure r)

pub record_instruction-Safe : (p : Predicate) → refers p ≡ false → Safe (record_instruction p)
unfolding record_instruction
record_instruction-Safe p e = search (safe_rules, Safe-write p _ _ e) depth 8

pub ruleset operand_rules =
    (safe_rules, write_instr_operand-Safe, write_indexed_operand-Safe, record_instruction-Safe)

-- Where `recordValue` returns a refmode, the facts declare it, or the map of the variables to write
-- has it.
pub record_value-Known :
    (x : Externals) (o : Operand) (s : State) (r : Text) (t : State)
    → record_value x o s ≡ done r t
    → Known t r
record_value-Known x o s r t e = subst KnownIn e ((record_value-Supplies x o).at s)
