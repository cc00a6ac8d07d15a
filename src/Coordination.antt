-- ===== src/Coordination.antt =====
-- Coordination of parents: src/coordination/control.ts, over the records of
-- src/contracts/coordination-control.ts.
pub mod State
pub mod Parents
pub mod Operators
pub mod Submissions
pub mod Observation
pub mod Contract
pub mod Histories
pub mod Retirements
pub mod Guarantees
