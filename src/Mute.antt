-- ===== src/Mute.antt =====
-- src/mute.rs: source mute intervals, the mailbox that carries them from the producer to the
-- consumer, and the consumer's sorted union of them.
pub mod Types
pub mod Mailbox
pub mod History
pub mod Tests
