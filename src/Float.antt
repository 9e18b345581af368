-- ===== src/Float.antt =====
-- The operations on `f32` and `f64` that src/ uses. antt has no floats: the two types are
-- parameters of the model, and what their IEEE arithmetic does is not assumed here.
use rate_adjusting_pcm_ring.Common.{ℕ, Bool}
use rate_adjusting_pcm_ring.Common.Int.{ℤ}

-- `f32`
pub record Single (F : Type 0) : Type 0 where
  pub zero : F
  pub one : F
  pub is_finite : F → Bool
  pub clamp_unit : F → F  -- clamp(-1.0, 1.0)
  pub is_zero : F → Bool  -- == 0.0
  pub of_count : ℕ → F  -- `usize as f32`
  pub add : F → F → F
  pub sub : F → F → F
  pub mul : F → F → F
  pub div : F → F → F
  pub max : F → F → F

-- `f64`
pub record Double (R : Type 0) : Type 0 where
  pub of_count : ℕ → R  -- `u64 as f64`, `f64::from(u32)`
  pub add : R → R → R
  pub sub : R → R → R
  pub mul : R → R → R
  pub div : R → R → R
  pub sqrt : R → R
  pub lt : R → R → Bool
  pub le : R → R → Bool
  pub clamp : R → R → R → R  -- the value, then the bounds
  pub is_finite : R → Bool
  pub is_zero : R → Bool
  pub neg_infinity : R
  pub round : R → R
  pub to_i32 : R → ℤ
  pub to_u64 : R → ℕ

-- `f64::from(f32)`
pub record Widen (F R : Type 0) : Type 0 where
  pub widen : F → R
