-- ===== src/Service.antt =====
-- crates/yams-service: the service that executes requests for its clients.
pub mod Admission
pub mod Execute
pub mod Loop
pub mod Serve
