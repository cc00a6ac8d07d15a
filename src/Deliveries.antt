-- ===== src/Deliveries.antt =====
-- src/core/coordinator.ts: the queue of evidence that a task's worker is given by its peers, from
-- `queuePeerDelivery` over the worker's port, `#peerPort`, to the receipts, `#acceptPeerReceipt`.
-- Each attempt of a loop reads the record, decides, and then changes the record unless another
-- operation did in between: the record that was read and the one that is changed are two arguments.
pub mod Binding
pub mod Queue
pub mod Dispatch
pub mod Receipts
pub mod Moves
pub mod Settling
pub mod History
pub mod Once
pub mod Fence
pub mod Capacity
pub mod Evidence
