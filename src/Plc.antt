-- ===== src/Plc.antt =====
-- src/plc.rs: G.711 Appendix I concealment of lost samples. `F` is `f32`, `R` is `f64`.
pub mod State
pub mod Pitch
pub mod Wave
pub mod Process
pub mod Bounds
pub mod Sound
pub mod Tests
