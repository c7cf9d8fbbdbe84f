-- ===== src/Constants.antt =====
-- FactGenerator/src/Constants.cpp: a constant is written as an entity of its own at each use.
use cclyzerpp.Prelude.{ℕ, suc, Text, Option, [], ◌∷◌}
use cclyzerpp.Predicates.{
  constant, nullptr_constant, integer_constant, fp_constant, func_constant, global_var_constant,
  constant_expr, bitcast_constant_expr, inttoptr_constant_expr, ptrtoint_constant_expr,
  gep_constant_expr, constant_array, constant_struct, constant_vector, undef_constant, Predicate,
}
use cclyzerpp.Ir.{
  Header, plain, CastOpcode, op_bitcast, op_inttoptr, op_ptrtoint, Constant, Constants, const, Form,
  null_pointer, integer, floating, function_form, global_variable_form, undef, cast_expr, gep_expr,
  array_form, struct_form, vector_form, other_expr, other_form, nil, cons,
}
use cclyzerpp.Context.{get_name}
use cclyzerpp.Refmode.{constant_refmode}
use cclyzerpp.Externals.{Externals}
use cclyzerpp.Gen.{
  Gen, pure, ◌>>=◌, ◌>>◌, when_some, str, num, write_fact, record_type, save_result, refmode,
  current_function,
}

abbrev pub count : Constants → ℕ
count nil = 0
count (cons c cs) = suc (count cs)

-- `"@" + getName().str()`
abbrev pub global_name : Header → Text
global_name h = b'@' ∷ get_name (plain h)

-- The first part of `writeConstant`, before the tests on the constant's class.
unfoldable pub write_constant_entity : Externals → Constant → Gen Text
write_constant_entity x (const h small form) = do
  id ← refmode (constant_refmode (const h small form))
  write_fact constant.id id []
  ty ← record_type h.type
  write_fact constant.type id (str ty ∷ [])
  save_result id h.address
  f ← current_function
  when_some f (λ f. write_fact constant.in_func id (str (b'@' ∷ get_name f.value) ∷ []))
  write_fact constant.value id (str h.operand_text ∷ [])
  write_fact constant.hash id (num (x.string_hash h.operand_text) ∷ [])
  save_result h.operand_text h.address
  pure id

-- The cases of the switch over a constant cast, given the call that writes its operand.
unfoldable pub write_constant_cast : CastOpcode → Gen Text → Text → Gen (Unit {0})
write_constant_cast op_bitcast operand id = do
  opref ← operand
  write_fact bitcast_constant_expr.id id []
  write_fact bitcast_constant_expr.from_constant id (str opref ∷ [])
write_constant_cast op_inttoptr operand id = do
  opref ← operand
  write_fact inttoptr_constant_expr.id id []
  write_fact inttoptr_constant_expr.from_int_constant id (str opref ∷ [])
write_constant_cast op_ptrtoint operand id = do
  opref ← operand
  write_fact ptrtoint_constant_expr.id id []
  write_fact ptrtoint_constant_expr.from_ptr_constant id (str opref ∷ [])
write_constant_cast _ operand id = pure tt

unfoldable mutual
  unfolding write_constant_entity write_constant_cast

  pub write_constant : Externals → Constant → Gen Text
  write_constant x (const h small form) = do
    id ← write_constant_entity x (const h small form)
    write_form x h small form id
    pure id

  pub write_form : Externals → Header → Option Text → Form → Text → Gen (Unit {0})
  write_form x h small null_pointer id = write_fact nullptr_constant.id id []
  write_form x h small integer id = do
    write_fact integer_constant.id id []
    when_some small (λ n. write_fact constant.to_integer id (str n ∷ []))
  write_form x h small floating id = write_fact fp_constant.id id []
  write_form x h small function_form id = do
    write_fact func_constant.id id []
    write_fact func_constant.name id (str (global_name h) ∷ [])
  write_form x h small global_variable_form id = do
    write_fact global_var_constant.id id []
    write_fact global_var_constant.name id (str (global_name h) ∷ [])
  write_form x h small undef id = write_fact undef_constant.id id []
  write_form x h small (cast_expr op c) id = do
    write_fact constant_expr.id id []
    write_constant_cast op (write_constant x c) id
  write_form x h small (gep_expr base indices) id = do
    write_fact constant_expr.id id []
    base_ref ← write_constant x base
    write_fact gep_constant_expr.base id (str base_ref ∷ [])
    write_operands x gep_constant_expr.index id 0 indices
    write_fact gep_constant_expr.nindices id (num (count indices) ∷ [])
    write_fact gep_constant_expr.id id []
  write_form x h small (array_form cs) id = do
    write_operands x constant_array.index id 0 cs
    write_fact constant_array.size id (num (count cs) ∷ [])
    write_fact constant_array.id id []
  write_form x h small (struct_form cs) id = do
    write_operands x constant_struct.index id 0 cs
    write_fact constant_struct.size id (num (count cs) ∷ [])
    write_fact constant_struct.id id []
  write_form x h small (vector_form cs) id = do
    write_operands x constant_vector.index id 0 cs
    write_fact constant_vector.size id (num (count cs) ∷ [])
    write_fact constant_vector.id id []
  write_form x h small other_expr id = write_fact constant_expr.id id []
  write_form x h small other_form id = pure tt

  -- The loop over the operands of an aggregate, and over those of a GEP after its base.
  pub write_operands : Externals → Predicate → Text → ℕ → Constants → Gen (Unit {0})
  write_operands x p id i nil = pure tt
  write_operands x p id i (cons c cs) = do
    index_ref ← write_constant x c
    write_fact p id (num i ∷ str index_ref ∷ [])
    write_operands x p id (suc i) cs
