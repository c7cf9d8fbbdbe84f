-- ===== src/Predicates.antt =====
-- The predicates of the fact schema (FactGenerator/include/predicates.inc), group by group.
pub mod Base
pub mod Globals
pub mod Binary
pub mod Control
pub mod Memory
pub mod Casts
pub mod Types
pub mod Values
pub mod Signatures
pub mod Registry
pub use Base.*
pub use Globals.*
pub use Binary.*
pub use Control.*
pub use Memory.*
pub use Casts.*
pub use Types.*
pub use Values.*
pub use Signatures.*
pub use Registry.{predicates_reg}
