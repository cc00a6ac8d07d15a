-- ===== src/Coordination/State.antt =====
-- src/coordination/control.ts: the control state, its commands, and who may read what.
pub mod Records
pub mod Commands
pub mod Access
pub mod Stored
pub mod Lookup
pub mod Disclosure
