-- ===== src/Models.antt =====
-- The inputs and outputs of the models: what src/models keeps between two runs, on the CPU.
pub mod Blocks
pub mod Cache
pub mod Logits
pub mod Positions
pub mod Graphs
pub mod Buffers
pub mod InputIds
