-- ===== src/Coordination/Observation.antt =====
-- src/coordination/control.ts: cases that the elected runtime observes.
pub mod Observed
pub mod Extended
