-- ===== src/Progress/Total.antt =====
-- FactGenerator/src/FactGenerator.cpp: `processModule` on a verified module, from its start to its
-- facts.
use cclyzerpp.Prelude.{Text, ◌⊎◌, Occurs}
use cclyzerpp.Predicates.{constant, variable}
use cclyzerpp.Ir.{Module}
use cclyzerpp.Externals.{Externals}
use cclyzerpp.Gen.{State, Fact}
use cclyzerpp.Integrity.{references, entity}

-- Each operand column of the state's facts names a constant or a variable that a fact declares.
abbrev pub OperandsDeclared : State → Type 0
OperandsDeclared t =
    (fact : Fact) (r : Text)
    → Occurs fact t.log
    → Occurs r (references fact)
    → Occurs (entity constant.id r) t.log ⊎ Occurs (entity variable.id r) t.log
