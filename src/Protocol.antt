-- ===== src/Protocol.antt =====
-- crates/yams-protocol: the wire protocol of the client and the service.
pub mod Errors
pub mod Frame
pub mod Message
pub mod Json
