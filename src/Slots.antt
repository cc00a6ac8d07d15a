-- ===== src/Slots.antt =====
-- src/core/coordinator.ts, `reservePeerDeliverySlots`, and src/core/task-control.ts,
-- `releasePeerDeliverySlotsInPublication`: places that an extension of a case claims with its
-- recipient, before it discloses anything, and gives back if it is ruled out.
pub mod Recipient
pub mod Reserve
pub mod Release
pub mod Claims
pub mod Laws
pub mod Returns
