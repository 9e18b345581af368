-- ===== src/Ring.antt =====
-- src/ring.rs: the ring between one producer and one consumer.
pub mod State
pub mod Settings
pub mod Finish
pub mod Producer
pub mod Consumer
pub mod Create
pub mod Interleaving
pub mod Tests
