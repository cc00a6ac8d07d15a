-- ===== src/Coordination/Parents.antt =====
-- src/coordination/control.ts: the commands of parents, from the change of one record to the answer under a key.
pub mod Works
pub mod Notes
pub mod Cases
pub mod Apply
pub mod Capacity
pub mod Execute
