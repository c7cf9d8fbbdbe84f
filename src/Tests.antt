-- ===== src/Tests.antt =====
-- Tests of the definitions on concrete inputs, and instances of the theorems.
pub mod Data
pub mod Disk
pub mod Facts
pub mod Files
pub mod Pass
pub mod Progress
pub mod Options
pub mod Texts
