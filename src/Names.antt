-- ===== src/Names.antt =====
-- The program's names: the hash behind its string switches, and what is converted by them.
pub mod Hash
pub mod Method
pub mod HeaderType
mod Tests
