-- ===== src/Predicates/Casts.antt =====
-- FactGenerator/include/predicates.inc: the predicate groups of conversions.
use cclyzerpp.Predicates.Base.{predicate, CastGroup}

abbrev pub trunc : CastGroup
trunc = record {
  instr = predicate "trunc_instr";
  from_operand = predicate "trunc_instr_from_operand";
  to_type = predicate "trunc_instr_to_type";
}

abbrev pub zext : CastGroup
zext = record {
  instr = predicate "zext_instr";
  from_operand = predicate "zext_instr_from_operand";
  to_type = predicate "zext_instr_to_type";
}

abbrev pub sext : CastGroup
sext = record {
  instr = predicate "sext_instr";
  from_operand = predicate "sext_instr_from_operand";
  to_type = predicate "sext_instr_to_type";
}

abbrev pub fptrunc : CastGroup
fptrunc = record {
  instr = predicate "fptrunc_instr";
  from_operand = predicate "fptrunc_instr_from_operand";
  to_type = predicate "fptrunc_instr_to_type";
}

abbrev pub fpext : CastGroup
fpext = record {
  instr = predicate "fpext_instr";
  from_operand = predicate "fpext_instr_from_operand";
  to_type = predicate "fpext_instr_to_type";
}

abbrev pub fptoui : CastGroup
fptoui = record {
  instr = predicate "fptoui_instr";
  from_operand = predicate "fptoui_instr_from_operand";
  to_type = predicate "fptoui_instr_to_type";
}

abbrev pub fptosi : CastGroup
fptosi = record {
  instr = predicate "fptosi_instr";
  from_operand = predicate "fptosi_instr_from_operand";
  to_type = predicate "fptosi_instr_to_type";
}

abbrev pub uitofp : CastGroup
uitofp = record {
  instr = predicate "uitofp_instr";
  from_operand = predicate "uitofp_instr_from_operand";
  to_type = predicate "uitofp_instr_to_type";
}

abbrev pub sitofp : CastGroup
sitofp = record {
  instr = predicate "sitofp_instr";
  from_operand = predicate "sitofp_instr_from_operand";
  to_type = predicate "sitofp_instr_to_type";
}

abbrev pub ptrtoint : CastGroup
ptrtoint = record {
  instr = predicate "ptrtoint_instr";
  from_operand = predicate "ptrtoint_instr_from_operand";
  to_type = predicate "ptrtoint_instr_to_type";
}

abbrev pub inttoptr : CastGroup
inttoptr = record {
  instr = predicate "inttoptr_instr";
  from_operand = predicate "inttoptr_instr_from_operand";
  to_type = predicate "inttoptr_instr_to_type";
}

abbrev pub bitcast : CastGroup
bitcast = record {
  instr = predicate "bitcast_instr";
  from_operand = predicate "bitcast_instr_from_operand";
  to_type = predicate "bitcast_instr_to_type";
}
