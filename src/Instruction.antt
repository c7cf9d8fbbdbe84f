-- ===== src/Instruction.antt =====
-- FactGenerator/src/InstructionVisitor.cpp and InstructionVisitor.hpp: the dispatch on an
-- instruction's class, which `llvm::InstVisitor::visit` makes.
pub mod Operands
pub mod Info
pub mod Simple
pub mod Control
pub mod Memory
use cclyzerpp.Prelude.{text, none, some}
use cclyzerpp.Predicates.{insertelement}
use cclyzerpp.Ir.{
  Opcode, cast_op, binary_op, ret_op, br_cond, br_uncond, switch_op, indirectbr_op, invoke_op,
  resume_op, unreachable_op, alloca_op, load_op, va_arg_op, extract_value_op, store_op, cmpxchg_op,
  atomicrmw_op, fence_op, gep_op, phi_op, select_op, insert_value_op, landingpad_op, call_op,
  dbg_declare_op, icmp_op, fcmp_op, extract_element_op, insert_element_op, shuffle_vector_op,
  fneg_op, freeze_op, other_unary, other_op,
}
use cclyzerpp.Externals.{Externals}
use cclyzerpp.Gen.{Gen, unknown}
use Simple.{
  binary_group, visit_cast, visit_binary_inst, visit_icmp, visit_fcmp, visit_select, visit_va_arg,
  visit_extract_value, visit_insert_value, visit_extract_element, visit_insert_element,
  visit_shuffle_vector, visit_fneg, visit_freeze,
}
use Control.{
  visit_return, visit_cond_branch, visit_branch, visit_switch, visit_indirect_branch, visit_invoke,
  visit_resume, visit_phi, visit_landing_pad, visit_call, visit_dbg_declare, visit_unreachable,
}
use Memory.{
  visit_alloca, visit_load, visit_store, visit_cmpxchg, visit_atomicrmw, visit_fence, visit_gep,
}

unfoldable pub visit : Externals → Opcode → Gen (Unit {0})
visit x (cast_op op a ty) = visit_cast x op a ty
visit x (binary_op op a b o) = visit_binary_inst x (binary_group op) a b o
visit x (ret_op v) = visit_return x v
visit x (br_cond c t f) = visit_cond_branch x c t f
visit x (br_uncond l) = visit_branch x l
visit x (switch_op v d cases) = visit_switch x v d cases
visit x (indirectbr_op a labels) = visit_indirect_branch x a labels
visit x (invoke_op c n u) = visit_invoke x c n u
visit x (resume_op v) = visit_resume x v
visit x unreachable_op = visit_unreachable
visit x (alloca_op ty n a) = visit_alloca x ty n a
visit x (load_op p a) = visit_load x p a
visit x (va_arg_op ty p) = visit_va_arg x ty p
visit x (extract_value_op b is) = visit_extract_value x b is
visit x (store_op v p a) = visit_store x v p a
visit x (cmpxchg_op p c n v s f t) = visit_cmpxchg x p c n v s f t
visit x (atomicrmw_op p v vol op a) = visit_atomicrmw x p v vol op a
visit x (fence_op a) = visit_fence x a
visit x (gep_op b is n) = visit_gep x b is n
visit x (phi_op ty ps) = visit_phi x ty ps
visit x (select_op c a b) = visit_select x c a b
visit x (insert_value_op b v is) = visit_insert_value x b v is
visit x (landingpad_op ty c cs) = visit_landing_pad x ty c cs
visit x (call_op c t) = visit_call x c t
visit x (dbg_declare_op c t d) = visit_dbg_declare x c t d
visit x (icmp_op p a b) = visit_icmp x p a b
visit x (fcmp_op p a b) = visit_fcmp x p a b
visit x (extract_element_op v i) = visit_extract_element x v i
visit x (insert_element_op v e i) = visit_insert_element x v e i
visit x (shuffle_vector_op a b m) = visit_shuffle_vector x a b m
visit x (fneg_op a) = visit_fneg x a
visit x (freeze_op a) = visit_freeze x a
visit x (other_unary n) = unknown (text "instruction") n
visit x (other_op n) = unknown (text "instruction") n
