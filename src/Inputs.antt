-- ===== src/Inputs.antt =====
-- src/core/input-broker.ts, with `TaskControls.requestInput` of src/core/task-control.ts: questions that
-- a native runtime asks through a task's control record. The broker's map of native waiters is a list
-- of the input ids that have one, and the task of each.
pub mod Broker
pub mod Answer
pub mod Validity
pub mod Keeps
pub mod Recording
