-- ===== src/Predicates/Memory.antt =====
-- FactGenerator/include/predicates.inc: the predicate groups of vector, aggregate and memory instructions.
use cclyzerpp.Predicates.Base.{Predicate, predicate}

pub record ExtractelementGroup : Type 0 where
  pub instr : Predicate
  pub base : Predicate
  pub index : Predicate

abbrev pub extractelement : ExtractelementGroup
extractelement = record {
  instr = predicate "extractelement_instr";
  base = predicate "extractelement_instr_base";
  index = predicate "extractelement_instr_index";
}

pub record InsertelementGroup : Type 0 where
  pub instr : Predicate
  pub base : Predicate
  pub index : Predicate
  pub value : Predicate

abbrev pub insertelement : InsertelementGroup
insertelement = record {
  instr = predicate "insertelement_instr";
  base = predicate "insertelement_instr_base";
  index = predicate "insertelement_instr_index";
  value = predicate "insertelement_instr_value";
}

pub record ShufflevectorGroup : Type 0 where
  pub instr : Predicate
  pub first_vector : Predicate
  pub second_vector : Predicate
  pub mask : Predicate

abbrev pub shufflevector : ShufflevectorGroup
shufflevector = record {
  instr = predicate "shufflevector_instr";
  first_vector = predicate "shufflevector_instr_first_vector";
  second_vector = predicate "shufflevector_instr_second_vector";
  mask = predicate "shufflevector_instr_mask";
}

pub record ExtractvalueGroup : Type 0 where
  pub instr : Predicate
  pub base : Predicate
  pub index : Predicate
  pub nindices : Predicate

abbrev pub extractvalue : ExtractvalueGroup
extractvalue = record {
  instr = predicate "extractvalue_instr";
  base = predicate "extractvalue_instr_base";
  index = predicate "extractvalue_instr_index";
  nindices = predicate "extractvalue_instr_nindices";
}

pub record InsertvalueGroup : Type 0 where
  pub instr : Predicate
  pub base : Predicate
  pub value : Predicate
  pub index : Predicate
  pub nindices : Predicate

abbrev pub insertvalue : InsertvalueGroup
insertvalue = record {
  instr = predicate "insertvalue_instr";
  base = predicate "insertvalue_instr_base";
  value = predicate "insertvalue_instr_value";
  index = predicate "insertvalue_instr_index";
  nindices = predicate "insertvalue_instr_nindices";
}

pub record AllocaGroup : Type 0 where
  pub instr : Predicate
  pub size : Predicate
  pub alignment : Predicate
  pub type : Predicate

abbrev pub alloca : AllocaGroup
alloca = record {
  instr = predicate "alloca_instr";
  size = predicate "alloca_instr_size";
  alignment = predicate "alloca_instr_alignment";
  type = predicate "alloca_instr_type";
}

pub record LoadGroup : Type 0 where
  pub instr : Predicate
  pub alignment : Predicate
  pub ordering : Predicate
  pub address : Predicate
  pub is_volatile : Predicate

abbrev pub load : LoadGroup
load = record {
  instr = predicate "load_instr";
  alignment = predicate "load_instr_alignment";
  ordering = predicate "load_instr_ordering";
  address = predicate "load_instr_address";
  is_volatile = predicate "load_instr_is_volatile";
}

pub record StoreGroup : Type 0 where
  pub instr : Predicate
  pub alignment : Predicate
  pub ordering : Predicate
  pub value : Predicate
  pub address : Predicate
  pub is_volatile : Predicate

abbrev pub store : StoreGroup
store = record {
  instr = predicate "store_instr";
  alignment = predicate "store_instr_alignment";
  ordering = predicate "store_instr_ordering";
  value = predicate "store_instr_value";
  address = predicate "store_instr_address";
  is_volatile = predicate "store_instr_is_volatile";
}

pub record FenceGroup : Type 0 where
  pub instr : Predicate
  pub ordering : Predicate

abbrev pub fence : FenceGroup
fence = record { instr = predicate "fence_instr"; ordering = predicate "fence_instr_ordering" }

pub record AtomicrmwGroup : Type 0 where
  pub instr : Predicate
  pub ordering : Predicate
  pub operation : Predicate
  pub address : Predicate
  pub value : Predicate
  pub is_volatile : Predicate

abbrev pub atomicrmw : AtomicrmwGroup
atomicrmw = record {
  instr = predicate "atomicrmw_instr";
  ordering = predicate "atomicrmw_instr_ordering";
  operation = predicate "atomicrmw_instr_operation";
  address = predicate "atomicrmw_instr_address";
  value = predicate "atomicrmw_instr_value";
  is_volatile = predicate "atomicrmw_instr_is_volatile";
}

pub record CmpxchgGroup : Type 0 where
  pub instr : Predicate
  pub ordering : Predicate
  pub address : Predicate
  pub cmp_value : Predicate
  pub new_value : Predicate
  pub type : Predicate
  pub is_volatile : Predicate

abbrev pub cmpxchg : CmpxchgGroup
cmpxchg = record {
  instr = predicate "cmpxchg_instr";
  ordering = predicate "cmpxchg_instr_ordering";
  address = predicate "cmpxchg_instr_address";
  cmp_value = predicate "cmpxchg_instr_cmp_value";
  new_value = predicate "cmpxchg_instr_new_value";
  type = predicate "cmpxchg_instr_type";
  is_volatile = predicate "cmpxchg_instr_is_volatile";
}

pub record GetelementptrGroup : Type 0 where
  pub instr : Predicate
  pub base : Predicate
  pub index : Predicate
  pub nindices : Predicate
  pub inbounds : Predicate

abbrev pub getelementptr : GetelementptrGroup
getelementptr = record {
  instr = predicate "getelementptr_instr";
  base = predicate "getelementptr_instr_base";
  index = predicate "getelementptr_instr_index";
  nindices = predicate "getelementptr_instr_nindices";
  inbounds = predicate "getelementptr_instr_inbounds";
}
