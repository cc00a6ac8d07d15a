-- ===== src/Coordination/Submissions.antt =====
-- src/coordination/control.ts: announcements, bindings and how they end.
pub mod Decision
pub mod Announce
pub mod Bind
pub mod Settle
pub mod Submitted
pub mod Announced
pub mod Disposed
pub mod Release
pub mod Full
