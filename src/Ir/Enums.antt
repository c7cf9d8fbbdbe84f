-- ===== src/Ir/Enums.antt =====
-- The LLVM enumerations that the fact generator prints.
pub data CallingConv : Type 0 where
  cc_c cc_fast cc_cold cc_x86_fastcall cc_x86_stdcall cc_x86_thiscall cc_intel_ocl_bi : CallingConv
  cc_arm_aapcs cc_arm_aapcs_vfp cc_arm_apcs cc_msp430_intr cc_ptx_device cc_ptx_kernel : CallingConv
  -- Any convention that the source's switch does not list.
  cc_unlisted : CallingConv

pub data ThreadLocalMode : Type 0 where
  not_thread_local general_dynamic local_dynamic initial_exec local_exec : ThreadLocalMode

pub data Linkage : Type 0 where
  external_linkage private_linkage internal_linkage link_once_any link_once_odr : Linkage
  weak_any weak_odr common_linkage appending_linkage external_weak : Linkage
  available_externally : Linkage

pub data Visibility : Type 0 where
  default_visibility hidden_visibility protected_visibility : Visibility

pub data AtomicOrdering : Type 0 where
  not_atomic unordered monotonic acquire release acquire_release : AtomicOrdering
  sequentially_consistent : AtomicOrdering

pub data CmpPredicate : Type 0 where
  fcmp_false fcmp_oeq fcmp_ogt fcmp_oge fcmp_olt fcmp_ole fcmp_one fcmp_ord : CmpPredicate
  fcmp_uno fcmp_ueq fcmp_ugt fcmp_uge fcmp_ult fcmp_ule fcmp_une fcmp_true : CmpPredicate
  icmp_eq icmp_ne icmp_sgt icmp_sge icmp_slt icmp_sle : CmpPredicate
  icmp_ugt icmp_uge icmp_ult icmp_ule bad_fcmp bad_icmp : CmpPredicate

pub data RmwOp : Type 0 where
  rmw_xchg rmw_add rmw_sub rmw_and rmw_nand rmw_or rmw_xor rmw_max rmw_min : RmwOp
  rmw_umax rmw_umin rmw_fadd rmw_fsub rmw_bad : RmwOp

pub data BinaryOpcode : Type 0 where
  op_add op_fadd op_sub op_fsub op_mul op_fmul op_sdiv op_fdiv op_udiv op_srem : BinaryOpcode
  op_frem op_urem op_shl op_lshr op_ashr op_and op_or op_xor : BinaryOpcode

pub data CastOpcode : Type 0 where
  op_trunc op_zext op_sext op_fptrunc op_fpext op_fptoui op_fptosi op_uitofp : CastOpcode
  op_sitofp op_ptrtoint op_inttoptr op_bitcast op_addrspacecast : CastOpcode
