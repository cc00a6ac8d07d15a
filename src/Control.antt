-- ===== src/Control.antt =====
-- src/core/task-control.ts: the operations on one task's control record. Each runs inside `change`,
-- which reads the stored record, hands the callback a copy, and writes the copy back if it differs.
-- A callback is a function from the copy to its value and the copy as it leaves it. One operation
-- reads the clock once; ids that the code draws at random are arguments.
pub mod Digests
pub mod Ownership
pub mod Cancel
pub mod Commit
