-- ===== src/Integrity.antt =====
-- Referential integrity of the facts: an operand column names a variable or a constant that the
-- facts declare (FactGenerator/src/InstructionVisitor.cpp, Constants.cpp, Functions.cpp,
-- Globals.cpp write these columns). This file says what that means; the modules below prove it.
pub mod Relation
pub mod Rules
pub mod Primitives
pub mod Constants
pub mod Instructions
pub mod Contexts
pub mod Variables
pub mod Signatures
pub mod Module
pub mod Declared
use text.Mathlib.Text.{◌==◌ as str_eq}
use cclyzerpp.Prelude.{
  Text, String, Bool, true, false, Option, none, some, List, [], ◌∷◌, ◌≡◌, ◌⊎◌, Occurs,
  if◌then◌else◌, map,
}
use cclyzerpp.Predicates.{Predicate, get_name, constant, variable}
use cclyzerpp.Context.{Frame, frame}
use cclyzerpp.Gen.{Field, str, num, int, Fact, State, has_variable}

-- The predicates whose last column is an operand.
abbrev operand_names : List String
operand_names =
    "add_instr_first_operand" ∷ "add_instr_second_operand" ∷ "alias_aliasee" ∷ "alloca_instr_size"
    ∷ "and_instr_first_operand" ∷ "and_instr_second_operand" ∷ "ashr_instr_first_operand"
    ∷ "ashr_instr_second_operand" ∷ "atomicrmw_instr_address" ∷ "atomicrmw_instr_value"
    ∷ "bitcast_constant_expression_from" ∷ "bitcast_instr_from_operand" ∷ "br_instr_condition"
    ∷ "br_instr_false_label" ∷ "br_instr_true_label" ∷ "br_instr_uncond_label" ∷ "call_instr_arg"
    ∷ "call_instr_func_operand" ∷ "cmpxchg_instr_address" ∷ "cmpxchg_instr_cmp_value"
    ∷ "cmpxchg_instr_new_value" ∷ "constant_array_index" ∷ "constant_struct_index"
    ∷ "constant_vector_index" ∷ "extractelement_instr_base" ∷ "extractelement_instr_index"
    ∷ "extractvalue_instr_base" ∷ "fadd_instr_first_operand" ∷ "fadd_instr_second_operand"
    ∷ "fcmp_instr_first_operand" ∷ "fcmp_instr_second_operand" ∷ "fdiv_instr_first_operand"
    ∷ "fdiv_instr_second_operand" ∷ "fmul_instr_first_operand" ∷ "fmul_instr_second_operand"
    ∷ "fneg_instr_operand" ∷ "fpext_instr_from_operand" ∷ "fptosi_instr_from_operand"
    ∷ "fptoui_instr_from_operand" ∷ "fptrunc_instr_from_operand" ∷ "freeze_instr_operand"
    ∷ "frem_instr_first_operand" ∷ "frem_instr_second_operand" ∷ "fsub_instr_first_operand"
    ∷ "fsub_instr_second_operand" ∷ "func_pers_fn" ∷ "getelementptr_constant_expression_base"
    ∷ "getelementptr_constant_expression_index" ∷ "getelementptr_instr_base"
    ∷ "getelementptr_instr_index" ∷ "global_var_initializer" ∷ "icmp_instr_first_operand"
    ∷ "icmp_instr_second_operand" ∷ "indirectbr_instr_address" ∷ "indirectbr_instr_label"
    ∷ "insertelement_instr_base" ∷ "insertelement_instr_index" ∷ "insertelement_instr_value"
    ∷ "insertvalue_instr_base" ∷ "insertvalue_instr_value" ∷ "inttoptr_constant_expression_from"
    ∷ "inttoptr_instr_from_operand" ∷ "invoke_instr_arg" ∷ "invoke_instr_exception_label"
    ∷ "invoke_instr_func_operand" ∷ "invoke_instr_normal_label" ∷ "landingpad_instr_catch_clause"
    ∷ "landingpad_instr_filter_clause" ∷ "load_instr_address" ∷ "lshr_instr_first_operand"
    ∷ "lshr_instr_second_operand" ∷ "mul_instr_first_operand" ∷ "mul_instr_second_operand"
    ∷ "or_instr_first_operand" ∷ "or_instr_second_operand" ∷ "phi_instr_pair_label"
    ∷ "phi_instr_pair_value" ∷ "ptrtoint_constant_expression_from" ∷ "ptrtoint_instr_from_operand"
    ∷ "resume_instr_operand" ∷ "ret_instr_operand" ∷ "sdiv_instr_first_operand"
    ∷ "sdiv_instr_second_operand" ∷ "select_instr_condition" ∷ "select_instr_first_operand"
    ∷ "select_instr_second_operand" ∷ "sext_instr_from_operand" ∷ "shl_instr_first_operand"
    ∷ "shl_instr_second_operand" ∷ "shufflevector_instr_first_vector" ∷ "shufflevector_instr_mask"
    ∷ "shufflevector_instr_second_vector" ∷ "sitofp_instr_from_operand" ∷ "srem_instr_first_operand"
    ∷ "srem_instr_second_operand" ∷ "store_instr_address" ∷ "store_instr_value"
    ∷ "sub_instr_first_operand" ∷ "sub_instr_second_operand" ∷ "switch_instr_case_label"
    ∷ "switch_instr_case_value" ∷ "switch_instr_default_label" ∷ "switch_instr_operand"
    ∷ "trunc_instr_from_operand" ∷ "udiv_instr_first_operand" ∷ "udiv_instr_second_operand"
    ∷ "uitofp_instr_from_operand" ∷ "urem_instr_first_operand" ∷ "urem_instr_second_operand"
    ∷ "va_arg_instr_va_list" ∷ "xor_instr_first_operand" ∷ "xor_instr_second_operand"
    ∷ "zext_instr_from_operand" ∷ []

occurs_in : String → List String → Bool
occurs_in n [] = false
occurs_in n (m ∷ ms) = if str_eq m n then true else occurs_in n ms

unfoldable pub refers : Predicate → Bool
unfolding occurs_in
refers p = occurs_in (get_name p) operand_names

abbrev pub last_text : List Field → List Text
last_text [] = []
last_text (str t ∷ []) = t ∷ []
last_text (num n ∷ []) = []
last_text (int n ∷ []) = []
last_text (f ∷ g ∷ fs) = last_text (g ∷ fs)

-- The entities that a fact refers to as operands.
abbrev pub references : Fact → List Text
references f = if refers f.predicate then last_text f.fields else []

abbrev pub entity : Predicate → Text → Fact
entity p r = record { predicate = p; key = r; fields = [] }

-- The facts declare the entity, or will when the function's variables are written.
abbrev pub Known : State → Text → Type 0
Known s r =
    Occurs (entity constant.id r) s.log
    ⊎ Occurs (entity variable.id r) s.log
    ⊎ (has_variable r s.variable_types ≡ true)

abbrev pub HasIntegrity : State → Type 0
HasIntegrity s = (f : Fact) → Occurs f s.log → (r : Text) → Occurs r (references f) → Known s r

abbrev pub frames : State → List Frame
frames s = map frame s.manager.contexts
