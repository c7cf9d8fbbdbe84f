-- ===== src/Wrapper.antt =====
-- FactGenerator/src/Wrapper.cpp: `factgen_module`, the entry of the LLVM pass. The generator and
-- the writer are new here; the source keeps one generator for the whole process.
pub mod Files
use cclyzerpp.Prelude.{ℕ, Text, Option, none, List, [], ◌∷◌}
use cclyzerpp.Predicates.{predicates_reg}
use cclyzerpp.Types.{write_types}
use cclyzerpp.Externals.{Externals}
use cclyzerpp.Signatures.{Document}
use cclyzerpp.Generate.{process_module}
use cclyzerpp.Driver.{ParsedModule}
use cclyzerpp.Gen.{State, Outcome, done, Gen, final, ◌>>=◌, ◌>>◌}
use cclyzerpp.Writer.{FactWriter, new_fact_writer, write_log}

-- The state of a new generator; `processModule` sets the contexts before it uses them.
abbrev pub new_generator : State
new_generator = record {
  manager = record { contexts = []; function_index = none; instr_index = 0; constant_index = 0 };
  log = [];
  result_map = [];
  variable_types = [];
  types = [];
  warnings = [];
}

-- `return this->result_map_`
unfoldable pub get_result_map : Gen (List (Text × ℕ))
get_result_map s = done s.result_map s

-- The second text is `getSourceFileName()`.
unfoldable pub factgen_module :
    Externals → ℕ → ParsedModule → Text → Option (Text × Document) → Text → Gen (List (Text × ℕ))
unfolding get_result_map
factgen_module x fuel m real_path signatures sensitivity = do
  process_module x m.contents real_path signatures sensitivity
  res_maps ← get_result_map
  write_types fuel m.layout
  (λ s. done res_maps s)

-- The files of an output directory behind a run, with a tab (9) as the delimiter.
unfoldable pub files_behind : {A : Type 0} → (Text → Text → Text) → Text → Outcome A → FactWriter
files_behind join output_dir o =
    write_log join (final o).log (new_fact_writer join predicates_reg output_dir (9 ∷ []))
