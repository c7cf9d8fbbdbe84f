-- ===== src/Progress/Module.antt =====
-- FactGenerator/src/FactGenerator.cpp: `processModule` returns.
use cclyzerpp.Ir.{Module}
use cclyzerpp.Externals.{Externals}
use cclyzerpp.Gen.{◌>>◌}
