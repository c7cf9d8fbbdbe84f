-- ===== src/Ir.antt =====
-- Views of the LLVM objects that the fact generator reads. LLVM is not part of the repository: an
-- object is the record of what its accessors return to this code (LLVM 14, the default version of
-- CMakeLists.txt), and nothing here models code of the repository.
pub mod Enums
pub mod Values
pub mod Instructions
pub use Enums.*
pub use Values.*
pub use Instructions.*
