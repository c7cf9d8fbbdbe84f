-- ===== src/Lib.antt =====
-- The fact generator of cclyzer++: it walks an LLVM module and writes relations (facts) about its
-- types, globals, functions, constants and instructions, which the Datalog points-to analysis reads.
--
-- FactGenerator::processModule (FactGenerator/src/FactGenerator.cpp) is the driver. It enters a
-- stack of contexts (ContextManager.hpp), asks the refmode engine (RefmodeEngine.cpp and
-- RefmodeEngineImpl.cpp) for the texts that name entities in those contexts, and hands each
-- instruction to the instruction visitor (InstructionVisitor.cpp), which writes constants
-- (Constants.cpp, Assembly.cpp) as it meets them and records variables, which are written at the
-- end of each function (Variables.cpp). Types met on the way are written by Types.cpp.
--
-- The facts go to one file per predicate (FactWriter.cpp, CsvWriter.hpp). The LLVM pass of src/ calls
-- the generator through Wrapper.cpp, runs the Datalog program on the files (PAInterface.cpp), converts
-- the relations that it makes (PAInterface.h, PointerAnalysis.cpp) and answers alias queries. The
-- command line tool (Main.cpp, Options.cpp) only writes the files.
--
-- Predicates: FactGenerator/include/predicates.inc, one record per group; Registry:
--   FactGenerator/src/PredicateGroups.cpp.
-- Ir, Externals: views of LLVM objects (what LLVM 14's accessors return) and the foreign functions,
--   parameters of the model.
-- Enums: FactGenerator/src/LlvmEnums.cpp and the two name tables of InstructionVisitor.cpp.
-- Context: ContextManager.hpp. Refmode, Refmode/Numbering: RefmodeEngine.cpp, RefmodeEngineImpl.cpp
--   and RefmodeEngineImpl.hpp.
-- Gen, Gen/Monad: FactGenerator/include/FactGenerator.hpp, the state of the generator. A method is
--   a function from a state to an outcome: a result with a state, or a failure (an exit, an
--   exception, a read through a null pointer) with the state it leaves; an exit and a
--   crash run no destructors, so that the contexts stay entered. Facts are in a log, the newest first.
-- Constants, Assembly, Demangler, Variables, Functions, Globals, Signatures, Generate: the sources
--   of these names under FactGenerator/src (Generate is FactGenerator.cpp, Demangler is under
--   FactGenerator/include).
-- Instruction: InstructionVisitor.cpp; Simple, Control and Memory hold the visit methods, Operands
--   and Info their helpers.
-- Types: Types.cpp, TypeAccumulator.hpp (Accumulator), TypeVisitor.cpp (Visitor).
-- Driver: FactGenerator/src/Main.cpp, the loop over the input files.
-- Options: FactGenerator/src/Options.cpp, behind the parser of the command line.
-- Python: FactGenerator/src/PyFactGen.cpp.
-- Writer, Writer/Csv: FactGenerator/src/FactWriter.cpp with FactGenerator/include/FactWriter.hpp, and
--   FactGenerator/include/CsvWriter.hpp. A file is the text that is written into its stream; the
--   writer keeps the files for which it made the parent directory, and Analysis/Pass makes these and
--   stores the files on a disk.
-- Wrapper: FactGenerator/src/Wrapper.cpp.
-- Analysis: the alias query of src/PointerAnalysis.cpp; Analysis/Assertions: checkAssertions of
--   src/PAInterface.cpp; Analysis/Relations, Analysis/Results and Analysis/Pass: the names of the
--   relations, the result and runOnModule of src/PointerAnalysis.cpp, with PAInterface.cpp and
--   PointerAnalysis.h; Analysis/Rows: the templates of src/PAInterface.h.
-- Disk: the calls of Boost.Filesystem, as an interface that Options and Analysis/Pass take.
-- Sensitivity: ContextSensitivity.hpp and ContextSensitivity.cpp.
-- Integrity, Context/Stack, Refmode/Stack, Refmode/Distinct, Refmode/Sigil, Refmode/Constants, Types/Closure,
--   Types/Fuel, Signatures/Typing, Assembly/Canonical, Sensitivity/RoundTrip,
--   Analysis/NoAlias, Analysis/Reading, Analysis/ReadFrom, Analysis/Members, Analysis/Meaning,
--   Analysis/Answers, Driver/Integrity, Writer/Contents, Writer/RoundTrip, Writer/Columns,
--   Writer/Files, Writer/Unique, Writer/Placed, Analysis/Stored, Wrapper/Files, Options/Files, Options/Accepted, Options/Unforced, Python/Output,
--   Progress, Refmode/Counting, Refmode/Bounds, Types/Written, Analysis/Symmetry: the proofs.
-- Tests: a small module and instances of the theorems.
--
-- Counters are `unsigned` in the source and wrap at 2 ^ 32 here. The recursion of the type
-- accumulator takes fuel, and as much as there are types is enough; all other loops are structural.
-- Hash sets and maps are lists, so the order of the facts that the source writes while it walks one
-- is that of the list. Assertions that a release build drops are not modelled.
-- An operand column, in the sense of Integrity, is the last column of one of the predicates that
-- Integrity.antt lists; instr_assigns_to and func_param are not among them, since they are written
-- before their variable is recorded.
--
-- The Datalog program and Souffle are a parameter: a function from a disk with the files of facts to
-- relations, whose rows are read cell by cell.
--
-- Not modelled: the compression of the files, the parser of the command line, the loading of modules,
-- the registration of the entry points with Boost.Python and LLVM, and the Datalog program itself.
pub mod Prelude
pub mod Predicates
pub mod Ir
pub mod Enums
pub mod Context
pub mod Refmode
pub mod Gen
pub mod Externals
pub mod Constants
pub mod Assembly
pub mod Instruction
pub mod Demangler
pub mod Variables
pub mod Functions
pub mod Globals
pub mod Signatures
pub mod Generate
pub mod Types
pub mod Sensitivity
pub mod Analysis
pub mod Integrity
pub mod Progress
pub mod Writer
pub mod Driver
pub mod Wrapper
pub mod Disk
pub mod Options
pub mod Python
pub mod Tests
