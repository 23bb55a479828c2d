-- ===== src/Tests.antt =====
-- Concrete inputs on which the theorems apply.
pub mod Values
pub mod Rows
pub mod Greedy
pub mod Beams
pub mod Generation
pub mod Configuration
pub mod Quotes
pub mod Dml
pub mod Models
