-- ===== src/Ring/State.antt =====
-- The data of src/ring.rs. `Ring` is split in two: `Shared` has the fields that both endpoints reach
-- (atomics, immutable settings, the PCM slots, the producer's own stamp and epoch), `ConsumerState`
-- is what its `consumer` cell holds. `F` is `f32`, `R` is `f64`, `C` the adapter's converter.
pub mod Queue
use rate_adjusting_pcm_ring.Common.{
  ℕ, ◌+◌, ◌*◌, ◌%◌, min, Option, none, some, List, [], Bool, true, false, leb, if◌then◌else◌, set,
  get_or, sat_add, ◌==◌,
}
use rate_adjusting_pcm_ring.Common.Int.{ℤ}
use rate_adjusting_pcm_ring.Common.Cursor.{distance, advance}
use rate_adjusting_pcm_ring.Float.{Single}
use rate_adjusting_pcm_ring.Mute.Types.{Stamp, Position}
use rate_adjusting_pcm_ring.Mute.Mailbox.{Mailbox}
use rate_adjusting_pcm_ring.Mute.History.{History}
use rate_adjusting_pcm_ring.Adapter.{Converter}
use rate_adjusting_pcm_ring.Plc.State.{Plc}

pub record SourceSample (F : Type 0) : Type 0 where
  pub pcm : F
  pub missing : Bool
  pub stamp : Option Stamp

pub data RefillResult : Type 0 where
  ready starved adapter_error : RefillResult

pub record Finite : Type 0 where
  pub token : ℕ
  pub end : ℕ
  pub plc_remaining : Option ℕ

pub record GapSpan : Type 0 where
  pub start : ℕ
  pub end : ℕ

pub record Shared (F : Type 0) : Type 0 where
  pub storage : List (SourceSample F)
  pub capacity : ℕ
  pub written : ℕ
  pub read : ℕ
  pub discarded : ℕ
  pub missing : ℕ
  pub consecutive_shortfall : ℕ
  pub shortfall_average_micro : ℕ
  pub reserve_samples : ℕ
  pub target_samples : ℕ
  pub filtered_occupancy_milli : ℕ
  pub ratio_correction_ppm : ℤ
  pub adapter_error_count : ℕ
  pub input_rate_hz : ℕ
  pub output_rate_hz : ℕ
  pub output_delay_samples : ℕ
  pub max_producer : ℕ
  pub max_output : ℕ
  pub producer_stamp : Option Stamp
  pub mute_mailbox : Mailbox
  pub reset_serial : ℕ
  pub producer_epoch : ℕ
  pub finish : ℕ
  pub finite_refill_limit : ℕ

-- `gap_capacity` is the allocation of `gaps`. The 128-bit source positions are unbounded here.
pub record ConsumerState (F R C : Type 0) : Type 0 where
  pub converter : Converter F R C
  pub input : List F
  pub output : List F
  pub input_offset : ℕ
  pub input_pending : ℕ
  pub output_offset : ℕ
  pub output_pending : ℕ
  pub output_missing : Bool
  pub source_taken : ℕ
  pub source_accepted : ℕ
  pub padding_accepted : ℕ
  pub input_padding : Bool
  pub finite : Option Finite
  pub quiet : Bool
  pub gaps : List GapSpan
  pub gap_capacity : ℕ
  pub plc : Option (Plc F)
  pub zero_progress : Bool
  pub occupancy_milli : ℕ
  pub ratio : R
  pub primed : Bool
  pub reset_failed : Bool
  pub source_base : Option (ℕ × ℤ)
  pub cache_start : ℤ
  pub cache_end : ℤ
  pub cache_count : ℕ
  pub mute_history : History
  pub mute_fault : Bool
  pub plc_positions : List (Option Position)
  pub plc_position : ℕ

pub record Ring (F R C : Type 0) : Type 0 where
  pub shared : Shared F
  pub consumer : ConsumerState F R C

module _ {F : Type 0} where
  -- The distance of the two cursors.
  unfoldable pub cursor_distance : Shared F → ℕ → ℕ → ℕ
  cursor_distance s written read = distance s.capacity written read

  unfoldable pub available : Shared F → ℕ
  unfolding cursor_distance
  available s = min (cursor_distance s s.written s.read) s.capacity

  -- `saturating_add_counter(&self.discarded, n)` and the same of the other counters.
  unfoldable pub count_discarded : Shared F → ℕ → Shared F
  count_discarded s n = record s { discarded = sat_add s.discarded n }

  unfoldable pub count_adapter_error : Shared F → Shared F
  count_adapter_error s = record s { adapter_error_count = sat_add s.adapter_error_count 1 }

module _ {F : Type 0} ⦃single : Single F⦄ where
  unfoldable pub canonicalize : F → F
  canonicalize sample = if single.is_finite sample then single.clamp_unit sample else single.zero

  -- What `allocate_storage` puts in every slot.
  abbrev pub empty_slot : SourceSample F
  empty_slot = record { pcm = single.zero; missing = false; stamp = none }

  -- `None` is an empty ring.
  unfoldable pub consumer_take_source_sample : Shared F → Option (SourceSample F) × Shared F
  consumer_take_source_sample s = if s.read == s.written then (none, s) else (
    some (get_or s.storage (s.read % s.capacity) empty_slot),
    record s { read = advance s.capacity s.read },
  )
