-- ===== src/Api/Codes.antt =====
-- The result codes and the C structures of src/lib.rs.
use rate_adjusting_pcm_ring.Common.{ℕ}
use rate_adjusting_pcm_ring.Common.Int.{ℤ, pos, negsuc}

abbrev pub abi_version : ℕ
abi_version = 3

abbrev pub result_ok : ℤ
result_ok = pos 0

-- -1
abbrev pub result_invalid_argument : ℤ
result_invalid_argument = negsuc 0

-- -2
abbrev pub result_no_memory : ℤ
result_no_memory = negsuc 1

-- -3
abbrev pub result_adapter_error : ℤ
result_adapter_error = negsuc 2

pub record Config : Type 0 where
  pub struct_size : ℕ
  pub abi_version : ℕ
  pub capacity_samples : ℕ
  pub input_rate_hz : ℕ
  pub output_rate_hz : ℕ
  pub reserve_samples : ℕ
  pub target_samples : ℕ
  pub max_producer_samples : ℕ
  pub max_output_samples : ℕ
  pub plc_mode : ℕ

-- `size_of::<Config>()`: four words of 4 bytes, five of 8, and the last word padded from 4 to 8.
abbrev pub config_size : ℕ
config_size = 64

pub record CObservation : Type 0 where
  pub struct_size : ℕ
  pub abi_version : ℕ
  pub capacity_samples : ℕ
  pub available_samples : ℕ
  pub reserve_samples : ℕ
  pub filtered_occupancy_samples : ℕ
  pub target_samples : ℕ
  pub ratio_correction_ppm : ℤ
  pub reserved : ℕ
  pub discarded_samples : ℕ
  pub missing_samples : ℕ
  pub consecutive_shortfall_samples : ℕ
  pub shortfall_average_milli : ℕ
  pub adapter_error_count : ℕ

-- `size_of::<CObservation>()`: four words of 4 bytes and ten of 8.
abbrev pub observation_size : ℕ
observation_size = 96
