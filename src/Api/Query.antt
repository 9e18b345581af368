-- ===== src/Api/Query.antt =====
-- The functions of src/lib.rs that only read the ring: they return their code and what they leave at the
-- out pointer.
use rate_adjusting_pcm_ring.Common.{ℕ, Option, none, some, not, ltb}
use rate_adjusting_pcm_ring.Common.Int.{ℤ}
use rate_adjusting_pcm_ring.Ring.State.{Ring}
use rate_adjusting_pcm_ring.Ring.Finish.{FinishStatus, code_of, finish_status}
use rate_adjusting_pcm_ring.Ring.Create.{Observation, observe}
use rate_adjusting_pcm_ring.Api.Codes.{
  abi_version, result_ok, result_invalid_argument, CObservation, observation_size,
}
use rate_adjusting_pcm_ring.Api.Checks.{Checked, ok, fail, ◌>>=◌, ◌>>◌, require, non_null}

-- A check that fails leaves the out pointer alone.
abbrev pub reply : {O : Type 0} → Option O → Checked (ℤ × Option O) → ℤ × Option O
reply out (ok a) = a
reply out (fail code) = (code, out)

unfoldable pub snapshot : Observation → CObservation
snapshot values = record {
  struct_size = observation_size;
  abi_version = abi_version;
  capacity_samples = values.capacity_samples;
  available_samples = values.available_samples;
  reserve_samples = values.reserve_samples;
  filtered_occupancy_samples = values.filtered_occupancy_samples;
  target_samples = values.target_samples;
  ratio_correction_ppm = values.ratio_correction_ppm;
  reserved = 0;
  discarded_samples = values.discarded_samples;
  missing_samples = values.missing_samples;
  consecutive_shortfall_samples = values.consecutive_shortfall_samples;
  shortfall_average_milli = values.shortfall_average_milli;
  adapter_error_count = values.adapter_error_count;
}

-- `Err(())` leaves the out pointer alone.
abbrev pub reply_status : ℕ → Option FinishStatus → ℤ × Option ℕ
reply_status old none = (result_invalid_argument, some old)
reply_status old (some status) = (result_ok, some (code_of status))

module _ {F R C : Type 0} where
  unfoldable pub ring_observe : Option (Ring F R C) → Option CObservation → ℤ × Option CObservation
  unfolding observe snapshot
  ring_observe ring observation = reply observation (do
    r ← non_null ring
    old ← non_null observation
    require (not (ltb old.struct_size observation_size))
    ok (result_ok, some (snapshot (observe r.shared))))

  unfoldable pub ring_output_delay : Option (Ring F R C) → Option ℕ → ℤ × Option ℕ
  ring_output_delay ring samples = reply samples (do
    r ← non_null ring
    old ← non_null samples
    ok (result_ok, some r.shared.output_delay_samples))

  unfoldable pub ring_finish_status : Option (Ring F R C) → ℕ → Option ℕ → ℤ × Option ℕ
  unfolding finish_status
  ring_finish_status ring token status = reply status (do
    r ← non_null ring
    old ← non_null status
    ok (reply_status old (finish_status r.shared token)))
