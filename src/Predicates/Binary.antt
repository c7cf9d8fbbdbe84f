-- ===== src/Predicates/Binary.antt =====
-- FactGenerator/include/predicates.inc: the predicate groups of binary instructions.
use cclyzerpp.Predicates.Base.{predicate, BinaryGroup}

abbrev pub add : BinaryGroup
add = record {
  instr = predicate "add_instr";
  first_operand = predicate "add_instr_first_operand";
  second_operand = predicate "add_instr_second_operand";
}

abbrev pub fadd : BinaryGroup
fadd = record {
  instr = predicate "fadd_instr";
  first_operand = predicate "fadd_instr_first_operand";
  second_operand = predicate "fadd_instr_second_operand";
}

abbrev pub sub : BinaryGroup
sub = record {
  instr = predicate "sub_instr";
  first_operand = predicate "sub_instr_first_operand";
  second_operand = predicate "sub_instr_second_operand";
}

abbrev pub fsub : BinaryGroup
fsub = record {
  instr = predicate "fsub_instr";
  first_operand = predicate "fsub_instr_first_operand";
  second_operand = predicate "fsub_instr_second_operand";
}

abbrev pub mul : BinaryGroup
mul = record {
  instr = predicate "mul_instr";
  first_operand = predicate "mul_instr_first_operand";
  second_operand = predicate "mul_instr_second_operand";
}

abbrev pub fmul : BinaryGroup
fmul = record {
  instr = predicate "fmul_instr";
  first_operand = predicate "fmul_instr_first_operand";
  second_operand = predicate "fmul_instr_second_operand";
}

abbrev pub udiv : BinaryGroup
udiv = record {
  instr = predicate "udiv_instr";
  first_operand = predicate "udiv_instr_first_operand";
  second_operand = predicate "udiv_instr_second_operand";
}

abbrev pub fdiv : BinaryGroup
fdiv = record {
  instr = predicate "fdiv_instr";
  first_operand = predicate "fdiv_instr_first_operand";
  second_operand = predicate "fdiv_instr_second_operand";
}

abbrev pub sdiv : BinaryGroup
sdiv = record {
  instr = predicate "sdiv_instr";
  first_operand = predicate "sdiv_instr_first_operand";
  second_operand = predicate "sdiv_instr_second_operand";
}

abbrev pub urem : BinaryGroup
urem = record {
  instr = predicate "urem_instr";
  first_operand = predicate "urem_instr_first_operand";
  second_operand = predicate "urem_instr_second_operand";
}

abbrev pub srem : BinaryGroup
srem = record {
  instr = predicate "srem_instr";
  first_operand = predicate "srem_instr_first_operand";
  second_operand = predicate "srem_instr_second_operand";
}

abbrev pub frem : BinaryGroup
frem = record {
  instr = predicate "frem_instr";
  first_operand = predicate "frem_instr_first_operand";
  second_operand = predicate "frem_instr_second_operand";
}

abbrev pub shl : BinaryGroup
shl = record {
  instr = predicate "shl_instr";
  first_operand = predicate "shl_instr_first_operand";
  second_operand = predicate "shl_instr_second_operand";
}

abbrev pub lshr : BinaryGroup
lshr = record {
  instr = predicate "lshr_instr";
  first_operand = predicate "lshr_instr_first_operand";
  second_operand = predicate "lshr_instr_second_operand";
}

abbrev pub ashr : BinaryGroup
ashr = record {
  instr = predicate "ashr_instr";
  first_operand = predicate "ashr_instr_first_operand";
  second_operand = predicate "ashr_instr_second_operand";
}

abbrev pub and_ : BinaryGroup
and_ = record {
  instr = predicate "and_instr";
  first_operand = predicate "and_instr_first_operand";
  second_operand = predicate "and_instr_second_operand";
}

abbrev pub or_ : BinaryGroup
or_ = record {
  instr = predicate "or_instr";
  first_operand = predicate "or_instr_first_operand";
  second_operand = predicate "or_instr_second_operand";
}

abbrev pub xor_ : BinaryGroup
xor_ = record {
  instr = predicate "xor_instr";
  first_operand = predicate "xor_instr_first_operand";
  second_operand = predicate "xor_instr_second_operand";
}
