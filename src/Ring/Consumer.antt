-- ===== src/Ring/Consumer.antt =====
-- The consumer's side of src/ring.rs.
pub mod Monad
pub mod Invariant
pub mod Input
pub mod Refill
pub mod Convert
pub mod Refilled
pub mod Filled
pub mod Lookahead
pub mod Occupancy
pub mod Cache
pub mod Finite
pub mod Render
pub mod Drained
pub mod Rendered
pub mod Ending
pub mod Muting
