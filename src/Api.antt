-- ===== src/Api.antt =====
-- src/lib.rs: the functions of the C descriptor.
pub mod Codes
pub mod Checks
pub mod Create
pub mod Producer
pub mod Consumer
pub mod Query
pub mod Session
pub mod Tokens
pub mod Tests
