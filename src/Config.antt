-- ===== src/Config.antt =====
-- `Config` of src/config.h and src/config.cpp.
pub mod Data
pub mod Handlers
pub mod Search
pub mod Elements
pub mod Names
pub mod Tree
pub mod Loaded
