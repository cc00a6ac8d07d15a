-- ===== src/Completion.antt =====
-- src/core/task-control.ts: the fence that decides, once, how a task ends.
pub mod Peers
pub mod Evidence
pub mod Standing
pub mod Admission
pub mod Laws
pub mod Finality
