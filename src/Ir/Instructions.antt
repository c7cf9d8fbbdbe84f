-- ===== src/Ir/Instructions.antt =====
-- Views of instructions, blocks, functions and modules.
use cclyzerpp.Prelude.{ℕ, Text, Bool, Option, List}
use cclyzerpp.Ir.Enums.{
  CallingConv, ThreadLocalMode, Linkage, Visibility, AtomicOrdering, CmpPredicate, RmwOp,
  BinaryOpcode, CastOpcode,
}
use cclyzerpp.Ir.Values.{LlvmType, Value, Constant, Operand}

-- `FPMathOperator`
pub record FpFlags : Type 0 where
  pub is_fast : Bool
  pub no_nans : Bool
  pub no_infs : Bool
  pub no_signed_zeros : Bool
  pub allow_reciprocal : Bool
  pub allow_contract : Bool
  pub approx_func : Bool

-- Which of the optimisation classes a binary operator belongs to: `FPMathOperator`, and then
-- `OverflowingBinaryOperator` or `PossiblyExactOperator`.
pub data WrapInfo : Type 0 where
  no_wrap_info : WrapInfo
  -- no unsigned wrap, no signed wrap
  overflowing : Bool → Bool → WrapInfo
  possibly_exact : Bool → WrapInfo

pub record OptInfo : Type 0 where
  pub fp : Option FpFlags
  pub wrap : WrapInfo

pub record AtomicInfo : Type 0 where
  pub ordering : AtomicOrdering
  -- the sync scope is `SingleThread`
  pub single_thread : Bool

-- A load or a store. `atomic` is `none` where `isAtomic()` is false.
pub record Access : Type 0 where
  pub atomic : Option AtomicInfo
  pub alignment : ℕ
  pub is_volatile : Bool

pub record CallInfo : Type 0 where
  pub callee : Operand
  pub args : List Operand
  pub calling_conv : CallingConv

pub record DbgInfo : Type 0 where
  -- `none` where the address is an `UndefValue`
  pub target : Option Value
  pub variable : Option Text
  pub location : Option (ℕ × ℕ)

pub data Opcode : Type 0 where
  cast_op : CastOpcode → Operand → LlvmType → Opcode
  binary_op : BinaryOpcode → Operand → Operand → OptInfo → Opcode
  ret_op : Option Operand → Opcode
  br_cond : Operand → Operand → Operand → Opcode
  br_uncond : Operand → Opcode
  switch_op : Operand → Operand → List (Operand × Operand) → Opcode
  indirectbr_op : Operand → List Operand → Opcode
  invoke_op : CallInfo → Operand → Operand → Opcode
  resume_op : Operand → Opcode
  unreachable_op : Opcode
  alloca_op : LlvmType → Option Operand → ℕ → Opcode
  load_op : Operand → Access → Opcode
  va_arg_op : LlvmType → Operand → Opcode
  extract_value_op : Operand → List ℕ → Opcode
  store_op : Operand → Operand → Access → Opcode
  cmpxchg_op : Operand → Operand → Operand → Bool → AtomicOrdering → AtomicOrdering → Bool → Opcode
  atomicrmw_op : Operand → Operand → Bool → RmwOp → AtomicInfo → Opcode
  fence_op : AtomicInfo → Opcode
  gep_op : Operand → List Operand → Bool → Opcode
  phi_op : LlvmType → List (Operand × Operand) → Opcode
  select_op : Operand → Operand → Operand → Opcode
  insert_value_op : Operand → Operand → List ℕ → Opcode
  -- each clause with `isCatch`
  landingpad_op : LlvmType → Bool → List (Bool × Operand) → Opcode
  call_op : CallInfo → Bool → Opcode
  dbg_declare_op : CallInfo → Bool → DbgInfo → Opcode
  icmp_op fcmp_op : CmpPredicate → Operand → Operand → Opcode
  extract_element_op : Operand → Operand → Opcode
  insert_element_op shuffle_vector_op : Operand → Operand → Operand → Opcode
  fneg_op freeze_op : Operand → Opcode
  -- a unary instruction, or an instruction, with no method of its own; the opcode's name
  other_unary other_op : Text → Opcode

pub record Instruction : Type 0 where
  pub value : Value
  pub opcode : Opcode
  pub location : Option (ℕ × ℕ)

pub record Block : Type 0 where
  pub value : Value
  pub predecessors : List Value
  pub instructions : List Instruction

pub record Function : Type 0 where
  pub value : Value
  pub function_type : LlvmType
  pub visibility : Visibility
  pub linkage : Linkage
  pub alignment : ℕ
  pub gc : Option Text
  pub personality : Option Constant
  pub calling_conv : CallingConv
  pub has_global_unnamed_addr : Bool
  pub is_declaration : Bool
  pub function_section : Option Text
  pub args : List Value
  pub blocks : List Block

pub record GlobalVariable : Type 0 where
  pub value : Value
  -- `getType()->getElementType()`
  pub element_type : LlvmType
  pub visibility : Visibility
  pub linkage : Linkage
  pub thread_local_mode : ThreadLocalMode
  pub initializer : Option Constant
  pub externally_initialized : Bool
  pub is_constant : Bool
  pub var_section : Option Text
  pub alignment : ℕ

pub record GlobalAlias : Type 0 where
  pub value : Value
  pub visibility : Visibility
  pub linkage : Linkage
  pub aliasee : Option Constant

pub record Module : Type 0 where
  pub globals : List GlobalVariable
  pub aliases : List GlobalAlias
  pub functions : List Function
