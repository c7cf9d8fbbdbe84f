-- ===== src/Predicates/Registry.antt =====
-- FactGenerator/src/PredicateGroups.cpp: the registry of all predicates, in the order of
-- FactGenerator/include/predicates.inc.
use cclyzerpp.Prelude.{List, [], ◌∷◌}
use cclyzerpp.Predicates.Base.{Predicate}
use cclyzerpp.Predicates.Globals.{block, global_var, alias, func, instr}
use cclyzerpp.Predicates.Control.{
  unreachable, ret, br, switch_, indirectbr, resume, invoke, icmp, fcmp, phi, select, va_arg, call,
  landingpad, fneg, freeze,
}
use cclyzerpp.Predicates.Binary.{
  add, fadd, sub, fsub, mul, fmul, udiv, fdiv, sdiv, urem, srem, frem, shl, lshr, ashr, and_, or_,
  xor_,
}
use cclyzerpp.Predicates.Memory.{
  extractelement, insertelement, shufflevector, extractvalue, insertvalue, alloca, load, store,
  fence, atomicrmw, cmpxchg, getelementptr,
}
use cclyzerpp.Predicates.Casts.{
  trunc, zext, sext, fptrunc, fpext, fptoui, fptosi, uitofp, sitofp, ptrtoint, inttoptr, bitcast,
}
use cclyzerpp.Predicates.Types.{
  primitive_type, integer_type, fp_type, type, func_type, ptr_type, vector_type, array_type,
  struct_type,
}
use cclyzerpp.Predicates.Values.{
  variable, constant, integer_constant, fp_constant, nullptr_constant, func_constant,
  global_var_constant, constant_array, constant_struct, constant_vector, constant_expr,
  bitcast_constant_expr, inttoptr_constant_expr, ptrtoint_constant_expr, gep_constant_expr,
  undef_constant, poison_constant, inline_asm,
}
use cclyzerpp.Predicates.Signatures.{signature, user}

-- `predicates_reg`
abbrev pub predicates_reg : List Predicate
predicates_reg =
    block.predecessor ∷ global_var.id ∷ global_var.name ∷ global_var.demangled_name
    ∷ global_var.type ∷ global_var.initializer ∷ global_var.section ∷ global_var.aligned_to
    ∷ global_var.flag ∷ global_var.linkage ∷ global_var.visibility ∷ global_var.threadlocal_mode
    ∷ alias.id ∷ alias.name ∷ alias.type ∷ alias.linkage ∷ alias.visibility ∷ alias.aliasee
    ∷ func.id_defn ∷ func.id_decl ∷ func.unnamed_addr ∷ func.linkage ∷ func.visibility
    ∷ func.calling_conv ∷ func.section ∷ func.alignment ∷ func.gc ∷ func.pers_fn ∷ func.name
    ∷ func.ty ∷ func.signature ∷ func.param ∷ instr.assigns_to ∷ instr.flag ∷ instr.successor
    ∷ instr.bb_entry ∷ instr.func ∷ instr.pos ∷ unreachable.instr ∷ add.instr ∷ add.first_operand
    ∷ add.second_operand ∷ fadd.instr ∷ fadd.first_operand ∷ fadd.second_operand ∷ sub.instr
    ∷ sub.first_operand ∷ sub.second_operand ∷ fsub.instr ∷ fsub.first_operand ∷ fsub.second_operand
    ∷ mul.instr ∷ mul.first_operand ∷ mul.second_operand ∷ fmul.instr ∷ fmul.first_operand
    ∷ fmul.second_operand ∷ udiv.instr ∷ udiv.first_operand ∷ udiv.second_operand ∷ fdiv.instr
    ∷ fdiv.first_operand ∷ fdiv.second_operand ∷ sdiv.instr ∷ sdiv.first_operand
    ∷ sdiv.second_operand ∷ urem.instr ∷ urem.first_operand ∷ urem.second_operand ∷ srem.instr
    ∷ srem.first_operand ∷ srem.second_operand ∷ frem.instr ∷ frem.first_operand
    ∷ frem.second_operand ∷ shl.instr ∷ shl.first_operand ∷ shl.second_operand ∷ lshr.instr
    ∷ lshr.first_operand ∷ lshr.second_operand ∷ ashr.instr ∷ ashr.first_operand
    ∷ ashr.second_operand ∷ and_.instr ∷ and_.first_operand ∷ and_.second_operand ∷ or_.instr
    ∷ or_.first_operand ∷ or_.second_operand ∷ xor_.instr ∷ xor_.first_operand ∷ xor_.second_operand
    ∷ ret.instr ∷ ret.void_ ∷ ret.operand ∷ br.instr ∷ br.cond ∷ br.condition ∷ br.true_label
    ∷ br.false_label ∷ br.uncond ∷ br.uncond_label ∷ switch_.instr ∷ switch_.operand
    ∷ switch_.default_label ∷ switch_.case_value ∷ switch_.case_label ∷ switch_.ncases
    ∷ indirectbr.instr ∷ indirectbr.address ∷ indirectbr.label ∷ indirectbr.nlabels ∷ resume.instr
    ∷ resume.operand ∷ invoke.instr ∷ invoke.arg ∷ invoke.func_operand ∷ invoke.calling_conv
    ∷ invoke.normal_label ∷ invoke.exception_label ∷ extractelement.instr ∷ extractelement.base
    ∷ extractelement.index ∷ insertelement.instr ∷ insertelement.base ∷ insertelement.index
    ∷ insertelement.value ∷ shufflevector.instr ∷ shufflevector.first_vector
    ∷ shufflevector.second_vector ∷ shufflevector.mask ∷ extractvalue.instr ∷ extractvalue.base
    ∷ extractvalue.index ∷ extractvalue.nindices ∷ insertvalue.instr ∷ insertvalue.base
    ∷ insertvalue.value ∷ insertvalue.index ∷ insertvalue.nindices ∷ alloca.instr ∷ alloca.size
    ∷ alloca.alignment ∷ alloca.type ∷ load.instr ∷ load.alignment ∷ load.ordering ∷ load.address
    ∷ load.is_volatile ∷ store.instr ∷ store.alignment ∷ store.ordering ∷ store.value
    ∷ store.address ∷ store.is_volatile ∷ fence.instr ∷ fence.ordering ∷ atomicrmw.instr
    ∷ atomicrmw.ordering ∷ atomicrmw.operation ∷ atomicrmw.address ∷ atomicrmw.value
    ∷ atomicrmw.is_volatile ∷ cmpxchg.instr ∷ cmpxchg.ordering ∷ cmpxchg.address ∷ cmpxchg.cmp_value
    ∷ cmpxchg.new_value ∷ cmpxchg.type ∷ cmpxchg.is_volatile ∷ getelementptr.instr
    ∷ getelementptr.base ∷ getelementptr.index ∷ getelementptr.nindices ∷ getelementptr.inbounds
    ∷ trunc.instr ∷ trunc.from_operand ∷ trunc.to_type ∷ zext.instr ∷ zext.from_operand
    ∷ zext.to_type ∷ sext.instr ∷ sext.from_operand ∷ sext.to_type ∷ fptrunc.instr
    ∷ fptrunc.from_operand ∷ fptrunc.to_type ∷ fpext.instr ∷ fpext.from_operand ∷ fpext.to_type
    ∷ fptoui.instr ∷ fptoui.from_operand ∷ fptoui.to_type ∷ fptosi.instr ∷ fptosi.from_operand
    ∷ fptosi.to_type ∷ uitofp.instr ∷ uitofp.from_operand ∷ uitofp.to_type ∷ sitofp.instr
    ∷ sitofp.from_operand ∷ sitofp.to_type ∷ ptrtoint.instr ∷ ptrtoint.from_operand
    ∷ ptrtoint.to_type ∷ inttoptr.instr ∷ inttoptr.from_operand ∷ inttoptr.to_type ∷ bitcast.instr
    ∷ bitcast.from_operand ∷ bitcast.to_type ∷ icmp.instr ∷ icmp.condition ∷ icmp.first_operand
    ∷ icmp.second_operand ∷ fcmp.instr ∷ fcmp.condition ∷ fcmp.first_operand ∷ fcmp.second_operand
    ∷ phi.instr ∷ phi.type ∷ phi.pair_value ∷ phi.pair_label ∷ phi.npairs ∷ select.instr
    ∷ select.condition ∷ select.first_operand ∷ select.second_operand ∷ va_arg.instr
    ∷ va_arg.va_list ∷ va_arg.type ∷ call.instr ∷ call.func_operand ∷ call.arg ∷ call.calling_conv
    ∷ call.tail_opt ∷ landingpad.instr ∷ landingpad.type ∷ landingpad.catch_clause
    ∷ landingpad.filter_clause ∷ landingpad.nclauses ∷ landingpad.cleanup ∷ fneg.instr
    ∷ fneg.operand ∷ freeze.instr ∷ freeze.operand ∷ primitive_type.id ∷ integer_type.id
    ∷ fp_type.id ∷ type.alloc_size ∷ type.store_size ∷ func_type.id ∷ func_type.varargs
    ∷ func_type.return_type ∷ func_type.param_type ∷ func_type.nparams ∷ ptr_type.id
    ∷ ptr_type.component_type ∷ ptr_type.addr_space ∷ vector_type.id ∷ vector_type.component_type
    ∷ vector_type.size ∷ array_type.id ∷ array_type.component_type ∷ array_type.size
    ∷ struct_type.id ∷ struct_type.field_type ∷ struct_type.field_offset
    ∷ struct_type.field_bit_offset ∷ struct_type.nfields ∷ struct_type.opaque ∷ struct_type.has_name
    ∷ variable.id ∷ variable.type ∷ variable.source_name ∷ variable.pos ∷ variable.in_func
    ∷ variable.name ∷ constant.id ∷ constant.type ∷ constant.value ∷ constant.in_func
    ∷ constant.expr ∷ constant.hash ∷ constant.to_integer ∷ integer_constant.id ∷ fp_constant.id
    ∷ nullptr_constant.id ∷ func_constant.id ∷ func_constant.name ∷ global_var_constant.id
    ∷ global_var_constant.name ∷ constant_array.id ∷ constant_array.index ∷ constant_array.size
    ∷ constant_struct.id ∷ constant_struct.index ∷ constant_struct.size ∷ constant_vector.id
    ∷ constant_vector.index ∷ constant_vector.size ∷ constant_expr.id ∷ bitcast_constant_expr.id
    ∷ bitcast_constant_expr.from_constant ∷ inttoptr_constant_expr.id
    ∷ inttoptr_constant_expr.from_int_constant ∷ ptrtoint_constant_expr.id
    ∷ ptrtoint_constant_expr.from_ptr_constant ∷ gep_constant_expr.id ∷ gep_constant_expr.base
    ∷ gep_constant_expr.index ∷ gep_constant_expr.nindices ∷ undef_constant.id ∷ poison_constant.id
    ∷ inline_asm.id ∷ inline_asm.text ∷ inline_asm.constraints ∷ signature.none
    ∷ signature.return_alloc ∷ signature.return_alloc_once ∷ signature.return_aliases_arg
    ∷ signature.return_aliases_arg_reachable ∷ signature.return_points_to_global
    ∷ signature.return_aliases_global ∷ signature.return_aliases_global_reachable
    ∷ signature.arg_alloc ∷ signature.arg_alloc_once ∷ signature.arg_memcpy_arg
    ∷ signature.arg_memcpy_arg_reachable ∷ signature.arg_points_to_global
    ∷ signature.arg_memcpy_global ∷ signature.arg_memcpy_global_reachable
    ∷ signature.global_memcpy_arg ∷ signature.global_memcpy_arg_reachable ∷ user.options ∷ []
