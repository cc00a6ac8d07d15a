-- ===== src/Coordination/Contract.antt =====
-- src/coordination/control.ts: what one publication may do, and that commands keep to it.
pub mod Edits
pub mod Publication
pub mod WorkEdits
pub mod CaseEdits
pub mod NoteEdits
pub mod Executed
