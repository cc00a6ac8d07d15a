-- ===== src/Coordination/Guarantees.antt =====
-- src/coordination/control.ts: what a parent can rely on at the limits and after a revocation.
pub mod Room
pub mod Closing
pub mod Revoke
