-- ===== src/Coordination/Retirements.antt =====
-- src/coordination/control.ts: the reservation for the retirement of a task.
pub mod Retirement
pub mod Retiring
