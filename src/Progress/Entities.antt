-- ===== src/Progress/Entities.antt =====
-- FactGenerator/src/Functions.cpp, Globals.cpp and FactGenerator.cpp: writing an entity returns.
use cclyzerpp.Prelude.{ℕ, Text}
use cclyzerpp.Ir.{Value, Instruction, Function, GlobalVariable, GlobalAlias}
use cclyzerpp.Externals.{Externals}
use cclyzerpp.Functions.{write_param, write_definition, write_function}
use cclyzerpp.Globals.{write_global_var, write_global_alias}
use cclyzerpp.Generate.{write_target, write_predecessor, process_global, process_alias}
use cclyzerpp.Progress.Rules.{
  Answers, Answers-pure, Answers-bind, Answers-write, Answers-for_each, Answers-in_context,
  Answers-refmode, Answers-save_result, answer_rules, returns-leave_outcome,
}
use cclyzerpp.Progress.Constants.{write_constant-Answers}
use cclyzerpp.Progress.Instructions.{IsNamed, visit-Answers, write_calling_conv-Answers}

pub ruleset module_answers = (answer_rules, write_constant-Answers, write_calling_conv-Answers)

write_param-Answers : (k : Text) (i : ℕ) (v : Value) → Answers (write_param k i v)
unfolding write_param
write_param-Answers k i v = search module_answers depth 8

write_definition-Answers : (f : Function) (k : Text) → Answers (write_definition f k)
unfolding write_definition
write_definition-Answers f k = search (module_answers, write_param-Answers) depth 8

pub write_function-Answers :
    (x : Externals) (f : Function) (k : Text) → Answers (write_function x f k)
unfolding write_function
write_function-Answers x f k = search (module_answers, write_definition-Answers) depth 24

write_global_var-Answers :
    (x : Externals) (gv : GlobalVariable) (k : Text) → Answers (write_global_var x gv k)
unfolding write_global_var
write_global_var-Answers x gv k = search module_answers depth 30

write_global_alias-Answers :
    (x : Externals) (ga : GlobalAlias) (k : Text) → Answers (write_global_alias x ga k)
unfolding write_global_alias
write_global_alias-Answers x ga k = search module_answers depth 24

pub process_global-Answers : (x : Externals) (gv : GlobalVariable) → Answers (process_global x gv)
unfolding process_global
process_global-Answers x gv = search (module_answers, write_global_var-Answers) depth 8

pub process_alias-Answers : (x : Externals) (ga : GlobalAlias) → Answers (process_alias x ga)
unfolding process_alias
process_alias-Answers x ga = search (module_answers, write_global_alias-Answers) depth 8

pub write_predecessor-Answers : (k : Text) (v : Value) → Answers (write_predecessor k v)
unfolding write_predecessor
write_predecessor-Answers k v = search module_answers depth 8

pub write_target-Answers : (i : Instruction) (k : Text) → Answers (write_target i k)
unfolding write_target
write_target-Answers i k = search module_answers depth 10
