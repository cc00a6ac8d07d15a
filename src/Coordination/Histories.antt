-- ===== src/Coordination/Histories.antt =====
-- src/coordination/control.ts: what holds after every sequence of operations.
pub mod History
pub mod Again
pub mod Exclusive
pub mod Sound
pub mod Fence
