-- ===== src/Driver.antt =====
-- FactGenerator/src/Main.cpp: `factgen`, the loop over the input files. The generator is one
-- object (`getInstance`), so its state passes from a module to the next.
pub mod Integrity
use cclyzerpp.Prelude.{ℕ, Text, Option, none, some, List}
use cclyzerpp.Ir.{LlvmType, Module}
use cclyzerpp.Types.{write_types}
use cclyzerpp.Types.View.{TypeView}
use cclyzerpp.Externals.{Externals}
use cclyzerpp.Signatures.{Document}
use cclyzerpp.Generate.{process_module}
use cclyzerpp.Gen.{Gen, stop, parse_exception, ◌>>=◌, ◌>>◌, for_each}

-- A parsed module and what its data layout says of types.
pub record ParsedModule : Type 0 where
  pub contents : Module
  pub layout : LlvmType → TypeView

-- A file, the path that `fs::canonical` returns, and what `llvm::parseIRFile` returns.
pub record InputFile : Type 0 where
  pub name : Text
  pub real_path : Text
  pub parsed : Option ParsedModule

module _ (x : Externals) (fuel : ℕ) (signatures : Option (Text × Document))
    (sensitivity : Text) where
  unfoldable pub process_parsed : Text → Text → Option ParsedModule → Gen (Unit {0})
  process_parsed name real_path none = stop (parse_exception name)
  process_parsed name real_path (some m) = do
    process_module x m.contents real_path signatures sensitivity
    write_types fuel m.layout

  unfoldable pub process_input : InputFile → Gen (Unit {0})
  unfolding process_parsed
  process_input f = process_parsed f.name f.real_path f.parsed

  unfoldable pub factgen : List InputFile → Gen (Unit {0})
  factgen files = for_each files process_input
