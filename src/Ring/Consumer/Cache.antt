-- ===== src/Ring/Consumer/Cache.antt =====
-- Where a cached output sample stands on the source timeline, the consumer's reset, and the shortfall
-- counters of src/ring.rs.
use rate_adjusting_pcm_ring.Common.{
  ℕ, [], Option, none, some, Bool, true, false, length, replicate, leb, if◌then◌else◌, sat_add,
  sat_mul, u64_max,
}
use mathlib.Core.Option
use rate_adjusting_pcm_ring.Common.Int.{ℤ, pos, negsuc, ◌+ℤ◌, ◌-ℤ◌, ◌*ℤ◌, div_floor, div_trunc}
use rate_adjusting_pcm_ring.Float.{Single, Double}
use rate_adjusting_pcm_ring.Adapter
use rate_adjusting_pcm_ring.Mute.Types.{Position}
use rate_adjusting_pcm_ring.Mute.History.{clear}
use rate_adjusting_pcm_ring.Plc.State.{reset as reset_plc}
use rate_adjusting_pcm_ring.Ring.State.{Shared, ConsumerState}
use rate_adjusting_pcm_ring.Ring.Consumer.Refill.{billion}

-- `u64::try_from(..).ok()`
abbrev pub try_u64 : ℤ → Option ℕ
try_u64 (pos n) = if leb n u64_max then some n else none
try_u64 (negsuc n) = none

abbrev pub position_of : ℕ → Option ℕ → Option ℕ → Option Position
position_of generation (some low) (some high) =
    some (record { generation = generation; low = low; high = high })
position_of generation none high = none
position_of generation (some low) none = none

-- The two source samples around a position in billionths.
unfoldable pub support : ℕ → ℤ → Option Position
unfolding div_floor ◌+ℤ◌
support generation position =
    position_of generation (try_u64 (div_floor position billion))
      (try_u64 (div_floor (position +ℤ pos 999_999_999) billion))

module _ {F R C : Type 0} where
  unfoldable pub cache_source_position : ConsumerState F R C → ℤ
  unfolding ◌+ℤ◌ ◌-ℤ◌ ◌*ℤ◌ div_trunc
  cache_source_position c =
      c.cache_start
      +ℤ div_trunc ((c.cache_end -ℤ c.cache_start) *ℤ pos c.output_offset) c.cache_count

  abbrev cache_position_at : ConsumerState F R C → Option (ℕ × ℤ) → Option Position
  cache_position_at c none = none
  cache_position_at c (some (generation, offset)) =
      support generation (cache_source_position c +ℤ offset *ℤ pos billion)

  unfoldable pub cache_position : ConsumerState F R C → Option Position
  unfolding cache_source_position support
  cache_position c = cache_position_at c c.source_base

module _ {F R C : Type 0} ⦃single : Single F⦄ ⦃double : Double R⦄ where
  -- `ConsumerState::reset`; `true` is `Ok(())`.
  unfoldable pub reset : ConsumerState F R C → Bool × ConsumerState F R C
  unfolding clear reset_plc
  reset c =
      let (done, converter) = Adapter.reset c.converter in
      (
        done,
        record c {
          converter = converter;
          reset_failed = if done then false else true;
          input_offset = 0;
          input_pending = 0;
          output_offset = 0;
          output_pending = 0;
          output_missing = false;
          source_taken = 0;
          source_accepted = 0;
          padding_accepted = 0;
          input_padding = false;
          finite = none;
          gaps = [];
          source_base = none;
          cache_count = 0;
          mute_history = clear c.mute_history;
          mute_fault = false;
          plc_positions = replicate (length c.plc_positions) none;
          plc_position = 0;
          plc = Option.map reset_plc c.plc;
          zero_progress = false;
          occupancy_milli = 0;
          ratio = double.of_count 0;
          primed = false;
        },
      )

-- The moving average of the shortfall, in `f64`.
unfoldable pub next_average : {R : Type 0} (double : Double R) → ℕ → ℕ → ℕ → ℕ
next_average double output_rate average consecutive =
    let denominator = double.of_count (sat_mul output_rate 10) in
    let old = double.of_count average in
    let measured = double.of_count (sat_mul consecutive 1_000_000) in
    double.to_u64 (
      double.clamp
        (double.add old
          (double.div (double.mul (double.sub measured old) (double.of_count 1)) denominator))
        (double.of_count 0) (double.of_count u64_max))

module _ {F R : Type 0} (double : Double R) where
  unfoldable pub record_shortfall : Shared F → Bool → Shared F
  unfolding next_average
  record_shortfall s is_missing =
      let consecutive = if is_missing then sat_add s.consecutive_shortfall 1 else 0 in
      record s {
        missing = if is_missing then sat_add s.missing 1 else s.missing;
        consecutive_shortfall = consecutive;
        shortfall_average_micro =
            next_average double s.output_rate_hz s.shortfall_average_micro consecutive;
      }
