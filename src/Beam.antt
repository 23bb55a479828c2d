-- ===== src/Beam.antt =====
-- Beam search on the CPU: src/beam_search_scorer.h, src/beam_search_scorer.cpp and
-- `BeamSearch_Cpu` of src/search.cpp.
pub mod Hypotheses
pub mod Scorer
pub mod Search
