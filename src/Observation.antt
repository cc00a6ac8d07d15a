-- ===== src/Observation.antt =====
-- src/observation: structural evidence that parents read of each other's work.
pub mod Cache
pub mod Evictions
