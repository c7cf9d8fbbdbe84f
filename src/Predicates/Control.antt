-- ===== src/Predicates/Control.antt =====
-- FactGenerator/include/predicates.inc: the predicate groups of terminators, calls and the other instructions.
use cclyzerpp.Predicates.Base.{Predicate, predicate}

pub record UnreachableGroup : Type 0 where
  pub instr : Predicate

abbrev pub unreachable : UnreachableGroup
unreachable = record { instr = predicate "unreachable_instr" }

pub record RetGroup : Type 0 where
  pub instr : Predicate
  pub void_ : Predicate
  pub operand : Predicate

abbrev pub ret : RetGroup
ret = record {
  instr = predicate "ret_instr";
  void_ = predicate "ret_instr_void_";
  operand = predicate "ret_instr_operand";
}

pub record BrGroup : Type 0 where
  pub instr : Predicate
  pub cond : Predicate
  pub condition : Predicate
  pub true_label : Predicate
  pub false_label : Predicate
  pub uncond : Predicate
  pub uncond_label : Predicate

abbrev pub br : BrGroup
br = record {
  instr = predicate "br_instr";
  cond = predicate "br_instr_cond";
  condition = predicate "br_instr_condition";
  true_label = predicate "br_instr_true_label";
  false_label = predicate "br_instr_false_label";
  uncond = predicate "br_instr_uncond";
  uncond_label = predicate "br_instr_uncond_label";
}

pub record SwitchGroup : Type 0 where
  pub instr : Predicate
  pub operand : Predicate
  pub default_label : Predicate
  pub case_value : Predicate
  pub case_label : Predicate
  pub ncases : Predicate

abbrev pub switch_ : SwitchGroup
switch_ = record {
  instr = predicate "switch_instr";
  operand = predicate "switch_instr_operand";
  default_label = predicate "switch_instr_default_label";
  case_value = predicate "switch_instr_case_value";
  case_label = predicate "switch_instr_case_label";
  ncases = predicate "switch_instr_ncases";
}

pub record IndirectbrGroup : Type 0 where
  pub instr : Predicate
  pub address : Predicate
  pub label : Predicate
  pub nlabels : Predicate

abbrev pub indirectbr : IndirectbrGroup
indirectbr = record {
  instr = predicate "indirectbr_instr";
  address = predicate "indirectbr_instr_address";
  label = predicate "indirectbr_instr_label";
  nlabels = predicate "indirectbr_instr_nlabels";
}

pub record ResumeGroup : Type 0 where
  pub instr : Predicate
  pub operand : Predicate

abbrev pub resume : ResumeGroup
resume = record { instr = predicate "resume_instr"; operand = predicate "resume_instr_operand" }

pub record InvokeGroup : Type 0 where
  pub instr : Predicate
  pub arg : Predicate
  pub func_operand : Predicate
  pub calling_conv : Predicate
  pub normal_label : Predicate
  pub exception_label : Predicate

abbrev pub invoke : InvokeGroup
invoke = record {
  instr = predicate "invoke_instr";
  arg = predicate "invoke_instr_arg";
  func_operand = predicate "invoke_instr_func_operand";
  calling_conv = predicate "invoke_instr_calling_conv";
  normal_label = predicate "invoke_instr_normal_label";
  exception_label = predicate "invoke_instr_exception_label";
}

pub record CallGroup : Type 0 where
  pub instr : Predicate
  pub func_operand : Predicate
  pub arg : Predicate
  pub calling_conv : Predicate
  pub tail_opt : Predicate

abbrev pub call : CallGroup
call = record {
  instr = predicate "call_instr";
  func_operand = predicate "call_instr_func_operand";
  arg = predicate "call_instr_arg";
  calling_conv = predicate "call_instr_calling_conv";
  tail_opt = predicate "call_instr_tail_opt";
}

pub record LandingpadGroup : Type 0 where
  pub instr : Predicate
  pub type : Predicate
  pub catch_clause : Predicate
  pub filter_clause : Predicate
  pub nclauses : Predicate
  pub cleanup : Predicate

abbrev pub landingpad : LandingpadGroup
landingpad = record {
  instr = predicate "landingpad_instr";
  type = predicate "landingpad_instr_type";
  catch_clause = predicate "landingpad_instr_catch_clause";
  filter_clause = predicate "landingpad_instr_filter_clause";
  nclauses = predicate "landingpad_instr_nclauses";
  cleanup = predicate "landingpad_instr_is_cleanup";
}

pub record PhiGroup : Type 0 where
  pub instr : Predicate
  pub type : Predicate
  pub pair_value : Predicate
  pub pair_label : Predicate
  pub npairs : Predicate

abbrev pub phi : PhiGroup
phi = record {
  instr = predicate "phi_instr";
  type = predicate "phi_instr_type";
  pair_value = predicate "phi_instr_pair_value";
  pair_label = predicate "phi_instr_pair_label";
  npairs = predicate "phi_instr_npairs";
}

pub record SelectGroup : Type 0 where
  pub instr : Predicate
  pub condition : Predicate
  pub first_operand : Predicate
  pub second_operand : Predicate

abbrev pub select : SelectGroup
select = record {
  instr = predicate "select_instr";
  condition = predicate "select_instr_condition";
  first_operand = predicate "select_instr_first_operand";
  second_operand = predicate "select_instr_second_operand";
}

pub record VaArgGroup : Type 0 where
  pub instr : Predicate
  pub va_list : Predicate
  pub type : Predicate

abbrev pub va_arg : VaArgGroup
va_arg = record {
  instr = predicate "va_arg_instr";
  va_list = predicate "va_arg_instr_va_list";
  type = predicate "va_arg_instr_type";
}

pub record IcmpGroup : Type 0 where
  pub instr : Predicate
  pub condition : Predicate
  pub first_operand : Predicate
  pub second_operand : Predicate

abbrev pub icmp : IcmpGroup
icmp = record {
  instr = predicate "icmp_instr";
  condition = predicate "icmp_instr_condition";
  first_operand = predicate "icmp_instr_first_operand";
  second_operand = predicate "icmp_instr_second_operand";
}

pub record FcmpGroup : Type 0 where
  pub instr : Predicate
  pub condition : Predicate
  pub first_operand : Predicate
  pub second_operand : Predicate

abbrev pub fcmp : FcmpGroup
fcmp = record {
  instr = predicate "fcmp_instr";
  condition = predicate "fcmp_instr_condition";
  first_operand = predicate "fcmp_instr_first_operand";
  second_operand = predicate "fcmp_instr_second_operand";
}

pub record FnegGroup : Type 0 where
  pub instr : Predicate
  pub operand : Predicate

abbrev pub fneg : FnegGroup
fneg = record { instr = predicate "fneg_instr"; operand = predicate "fneg_instr_operand" }

pub record FreezeGroup : Type 0 where
  pub instr : Predicate
  pub operand : Predicate

abbrev pub freeze : FreezeGroup
freeze = record { instr = predicate "freeze_instr"; operand = predicate "freeze_instr_operand" }
