-- ===== src/Service.antt =====
-- src/service: the requests of one connection.
pub mod Requests
pub mod Room
