-- ===== src/Progress.antt =====
-- FactGenerator/src: which methods of the generator return in every state.
pub mod Rules
pub mod Constants
pub mod Instructions
pub mod Inside
pub mod Entities
pub mod Blocks
pub mod Module
pub mod Total
