-- ===== src/Mute/Types.antt =====
-- The records of src/mute.rs. Their fields are `u64` values, held as natural numbers.
use rate_adjusting_pcm_ring.Common.{ℕ, ◌*◌}

abbrev pub max_spans : ℕ
max_spans = 64

-- Two maximum batches.
abbrev pub queue : ℕ
queue = max_spans * 2

pub record Span : Type 0 where
  pub start : ℕ
  pub end : ℕ

pub record Stamp : Type 0 where
  pub generation : ℕ
  pub source : ℕ

pub record Interval : Type 0 where
  pub generation : ℕ
  pub span : Span

pub record Position : Type 0 where
  pub generation : ℕ
  pub low : ℕ
  pub high : ℕ
