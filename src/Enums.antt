-- ===== src/Enums.antt =====
-- FactGenerator/src/LlvmEnums.cpp, and the two switches over enumerations of
-- FactGenerator/src/InstructionVisitor.cpp: the texts by which the facts name LLVM enumerators.
use cclyzerpp.Prelude.{Text, text, Option, none, some, []}
use cclyzerpp.Ir.{
  CallingConv, cc_c, cc_fast, cc_cold, cc_x86_fastcall, cc_x86_stdcall, cc_x86_thiscall,
  cc_intel_ocl_bi, cc_arm_aapcs, cc_arm_aapcs_vfp, cc_arm_apcs, cc_msp430_intr, cc_ptx_device,
  cc_ptx_kernel, cc_unlisted, ThreadLocalMode, not_thread_local, general_dynamic, local_dynamic,
  initial_exec, local_exec, Linkage, external_linkage, private_linkage, internal_linkage,
  link_once_any, link_once_odr, weak_any, weak_odr, common_linkage, appending_linkage,
  external_weak, available_externally, Visibility, default_visibility, hidden_visibility,
  protected_visibility, AtomicOrdering, not_atomic, unordered, monotonic, acquire, release,
  acquire_release, sequentially_consistent, CmpPredicate, fcmp_false, fcmp_oeq, fcmp_ogt, fcmp_oge,
  fcmp_olt, fcmp_ole, fcmp_one, fcmp_ord, fcmp_uno, fcmp_ueq, fcmp_ugt, fcmp_uge, fcmp_ult,
  fcmp_ule, fcmp_une, fcmp_true, icmp_eq, icmp_ne, icmp_sgt, icmp_sge, icmp_slt, icmp_sle, icmp_ugt,
  icmp_uge, icmp_ult, icmp_ule, bad_fcmp, bad_icmp, RmwOp, rmw_xchg, rmw_add, rmw_sub, rmw_and,
  rmw_nand, rmw_or, rmw_xor, rmw_max, rmw_min, rmw_umax, rmw_umin, rmw_fadd, rmw_fsub, rmw_bad,
}

-- The function that runs off the end of the switch at a convention it does not list; with
-- assertions off it returns "".
unfoldable pub calling_conv_to_string : CallingConv → Text
calling_conv_to_string cc_fast = text "fastcc"
calling_conv_to_string cc_cold = text "coldcc"
calling_conv_to_string cc_x86_fastcall = text "x86_fastcallcc"
calling_conv_to_string cc_x86_stdcall = text "x86_stdcallcc"
calling_conv_to_string cc_x86_thiscall = text "x86_thiscallcc"
calling_conv_to_string cc_intel_ocl_bi = text "intel_ocl_bicc"
calling_conv_to_string cc_arm_aapcs = text "arm_aapcscc"
calling_conv_to_string cc_arm_aapcs_vfp = text "arm_aapcs_vfpcc"
calling_conv_to_string cc_arm_apcs = text "arm_apcscc"
calling_conv_to_string cc_msp430_intr = text "msp430_intrcc"
calling_conv_to_string cc_ptx_device = text "tx_device"
calling_conv_to_string cc_ptx_kernel = text "ptx_kernel"
calling_conv_to_string cc_c = []
calling_conv_to_string cc_unlisted = []

unfoldable pub thread_local_mode_to_string : ThreadLocalMode → Text
thread_local_mode_to_string not_thread_local = []
thread_local_mode_to_string general_dynamic = text "thread_local"
thread_local_mode_to_string local_dynamic = text "thread_local(localdynamic)"
thread_local_mode_to_string initial_exec = text "thread_local(initialexec)"
thread_local_mode_to_string local_exec = text "thread_local(localexec)"

unfoldable pub linkage_to_string : Linkage → Text
linkage_to_string external_linkage = text "external"
linkage_to_string private_linkage = text "private"
linkage_to_string internal_linkage = text "internal"
linkage_to_string link_once_any = text "linkonce"
linkage_to_string link_once_odr = text "linkonce_odr"
linkage_to_string weak_any = text "weak"
linkage_to_string weak_odr = text "weak_odr"
linkage_to_string common_linkage = text "common"
linkage_to_string appending_linkage = text "appending"
linkage_to_string external_weak = text "extern_weak"
linkage_to_string available_externally = text "available_externally"

unfoldable pub visibility_to_string : Visibility → Text
visibility_to_string default_visibility = text "default"
visibility_to_string hidden_visibility = text "hidden"
visibility_to_string protected_visibility = text "protected"

unfoldable pub atomic_ordering_to_string : AtomicOrdering → Text
atomic_ordering_to_string not_atomic = []
atomic_ordering_to_string unordered = text "unordered"
atomic_ordering_to_string monotonic = text "monotonic"
atomic_ordering_to_string acquire = text "acquire"
atomic_ordering_to_string release = text "release"
atomic_ordering_to_string acquire_release = text "acq_rel"
atomic_ordering_to_string sequentially_consistent = text "seq_cst"

-- `icmp_pred_string`; `none` where the process exits on a malformed module.
unfoldable pub icmp_pred_string : CmpPredicate → Option Text
icmp_pred_string fcmp_false = some (text "false")
icmp_pred_string fcmp_oeq = some (text "oeq")
icmp_pred_string fcmp_ogt = some (text "ogt")
icmp_pred_string fcmp_oge = some (text "oge")
icmp_pred_string fcmp_olt = some (text "olt")
icmp_pred_string fcmp_ole = some (text "ole")
icmp_pred_string fcmp_one = some (text "one")
icmp_pred_string fcmp_ord = some (text "ord")
icmp_pred_string fcmp_uno = some (text "uno")
icmp_pred_string fcmp_ueq = some (text "ueq")
icmp_pred_string fcmp_ugt = some (text "ugt")
icmp_pred_string fcmp_uge = some (text "uge")
icmp_pred_string fcmp_ult = some (text "ult")
icmp_pred_string fcmp_ule = some (text "ule")
icmp_pred_string fcmp_une = some (text "une")
icmp_pred_string fcmp_true = some (text "true")
icmp_pred_string icmp_eq = some (text "eq")
icmp_pred_string icmp_ne = some (text "ne")
icmp_pred_string icmp_sgt = some (text "sgt")
icmp_pred_string icmp_sge = some (text "sge")
icmp_pred_string icmp_slt = some (text "slt")
icmp_pred_string icmp_sle = some (text "sle")
icmp_pred_string icmp_ugt = some (text "ugt")
icmp_pred_string icmp_uge = some (text "uge")
icmp_pred_string icmp_ult = some (text "ult")
icmp_pred_string icmp_ule = some (text "ule")
icmp_pred_string bad_fcmp = none
icmp_pred_string bad_icmp = none

-- `atomic_binop_string`; `none` where the process exits on a malformed module.
unfoldable pub atomic_binop_string : RmwOp → Option Text
atomic_binop_string rmw_xchg = some (text "xchg")
atomic_binop_string rmw_add = some (text "add")
atomic_binop_string rmw_sub = some (text "sub")
atomic_binop_string rmw_and = some (text "and")
atomic_binop_string rmw_nand = some (text "nand")
atomic_binop_string rmw_or = some (text "or")
atomic_binop_string rmw_xor = some (text "xor")
atomic_binop_string rmw_max = some (text "max")
atomic_binop_string rmw_min = some (text "min")
atomic_binop_string rmw_umax = some (text "umax")
atomic_binop_string rmw_umin = some (text "umin")
atomic_binop_string rmw_fadd = some (text "fadd")
atomic_binop_string rmw_fsub = some (text "fsub")
atomic_binop_string rmw_bad = none
