-- ===== src/Contracts.antt =====
-- contracts/: the durable records that the service stores, and the rules that their schemas state.
pub mod Peer
pub mod Task
pub mod Valid
