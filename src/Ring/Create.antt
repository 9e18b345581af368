-- ===== src/Ring/Create.antt =====
-- `Ring::create` and `Ring::observe` of src/ring.rs.
pub mod Fresh
use rate_adjusting_pcm_ring.Common.{
  ℕ, ◌+◌, ◌*◌, ◌/◌, ◌%◌, ◌^◌, ◌≡◌, List, [], Option, none, some, Bool, true, false, if◌then◌else◌,
  replicate, div_ceil, sat_add,
}
use rate_adjusting_pcm_ring.Common.Int.{ℤ, pos}
use rate_adjusting_pcm_ring.Float.{Single, Double}
use rate_adjusting_pcm_ring.Adapter.{AdapterFunctions, Converter, create_converter, input_delay}
use rate_adjusting_pcm_ring.Mute.Mailbox.{new as new_mailbox}
use rate_adjusting_pcm_ring.Mute.History.{new as new_history}
use rate_adjusting_pcm_ring.Plc.State.{Plc, lookahead, new as new_plc}
use rate_adjusting_pcm_ring.Ring.Settings.{
  Settings, PlcMode, disabled, g711_appendix_i, validate, converter_quantum,
}
use rate_adjusting_pcm_ring.Ring.State.{Ring, Shared, ConsumerState, empty_slot, available}
use rate_adjusting_pcm_ring.Ring.Consumer.Refill.{billion}

pub data CreateError : Type 0 where
  invalid no_memory adapter : CreateError

pub data Created (A : Type 0) : Type 0 where
  ok : A → Created A
  err : CreateError → Created A

infixl 5 ◌>>=◌ ◌>>◌
abbrev pub ◌>>=◌ : {A B : Type 0} → Created A → (A → Created B) → Created B
ok a >>= f = f a
err e >>= f = err e

abbrev pub ◌>>◌ : {B : Type 0} → Created (Unit {0}) → Created B → Created B
m >> k = m >>= λ _. k

abbrev pub require : Bool → CreateError → Created (Unit {0})
require true e = ok tt
require false e = err e

abbrev pub or_error : {A : Type 0} → Option A → CreateError → Created A
or_error none e = err e
or_error (some a) e = ok a

-- The allocations of construction. Whether one succeeds is a parameter.
pub data Site : Type 0 where
  plc_buffers storage input output gaps history mailbox positions : Site

abbrev pub uses_plc : PlcMode → Bool
uses_plc disabled = false
uses_plc g711_appendix_i = true

module _ {F R C : Type 0} ⦃single : Single F⦄ (double : Double R) where
  abbrev pub fresh_consumer : Settings → Converter F R C → ℕ → ConsumerState F R C
  fresh_consumer settings converter past = record {
    converter = converter;
    input = replicate settings.capacity single.zero;
    output = replicate settings.capacity single.zero;
    input_offset = 0;
    input_pending = 0;
    output_offset = 0;
    output_pending = 0;
    output_missing = false;
    source_taken = 0;
    source_accepted = 0;
    padding_accepted = 0;
    input_padding = false;
    finite = none;
    quiet = false;
    gaps = [];
    gap_capacity = settings.capacity * 2 + past + 2;
    plc = if uses_plc settings.plc then some (new_plc settings.output_rate_hz) else none;
    zero_progress = false;
    occupancy_milli = 0;
    ratio = double.of_count 0;
    primed = false;
    reset_failed = false;
    source_base = none;
    cache_start = pos 0;
    cache_end = pos 0;
    cache_count = 0;
    mute_history = new_history (settings.capacity * 2 + past + 2);
    mute_fault = false;
    plc_positions =
        replicate (if uses_plc settings.plc then lookahead settings.output_rate_hz else 0) none;
    plc_position = 0;
  }

  abbrev pub fresh_shared : Settings → Converter F R C → ℕ → Shared F
  fresh_shared settings converter past = record {
    storage = replicate settings.capacity empty_slot;
    capacity = settings.capacity;
    written = 0;
    read = 0;
    discarded = 0;
    missing = 0;
    consecutive_shortfall = 0;
    shortfall_average_micro = 0;
    reserve_samples = settings.reserve;
    target_samples = settings.target;
    filtered_occupancy_milli = 0;
    ratio_correction_ppm = pos 0;
    adapter_error_count = 0;
    input_rate_hz = settings.input_rate_hz;
    output_rate_hz = settings.output_rate_hz;
    output_delay_samples = converter.output_delay_samples;
    max_producer = settings.max_producer;
    max_output = settings.max_output;
    producer_stamp = none;
    mute_mailbox = new_mailbox;
    reset_serial = 0;
    producer_epoch = 0;
    finish = 0;
    finite_refill_limit = settings.capacity * 2 + past + converter_quantum;
  }

  -- The end of `create`, once the converter's delay is known.
  unfoldable pub assemble : (Site → Bool) → Settings → Converter F R C → ℕ → Created (Ring F R C)
  assemble allocates settings converter frames = do
    let past = div_ceil frames billion
    require (allocates gaps) no_memory
    require (allocates history) no_memory
    require (allocates mailbox) no_memory
    require (allocates positions) no_memory
    ok (record {
      shared = fresh_shared settings converter past;
      consumer = fresh_consumer settings converter past;
    })

  unfoldable pub assemble_with : (Site → Bool) → Settings → Converter F R C → Created (Ring F R C)
  unfolding assemble
  assemble_with allocates settings converter =
      let (delay, converter') = input_delay converter in
      or_error delay adapter >>= assemble allocates settings converter'

  unfoldable pub create : (Site → Bool) → Settings → AdapterFunctions F R C → Created (Ring F R C)
  unfolding assemble_with
  create allocates settings functions = do
    require (validate double settings) invalid
    require (if uses_plc settings.plc then allocates plc_buffers else true) no_memory
    require (allocates storage) no_memory
    require (allocates input) no_memory
    require (allocates output) no_memory
    converter ←
        or_error
          (create_converter functions settings.input_rate_hz settings.output_rate_hz
            settings.capacity converter_quantum)
          adapter
    assemble_with allocates settings converter

-- `Observation`
pub record Observation : Type 0 where
  pub capacity_samples : ℕ
  pub available_samples : ℕ
  pub reserve_samples : ℕ
  pub filtered_occupancy_samples : ℕ
  pub target_samples : ℕ
  pub ratio_correction_ppm : ℤ
  pub discarded_samples : ℕ
  pub missing_samples : ℕ
  pub consecutive_shortfall_samples : ℕ
  pub shortfall_average_milli : ℕ
  pub adapter_error_count : ℕ

unfoldable pub observe : {F : Type 0} → Shared F → Observation
observe s = record {
  capacity_samples = s.capacity;
  available_samples = available s;
  reserve_samples = s.reserve_samples;
  filtered_occupancy_samples = s.filtered_occupancy_milli / 1000;
  target_samples = s.target_samples;
  ratio_correction_ppm = s.ratio_correction_ppm;
  discarded_samples = s.discarded;
  missing_samples = s.missing;
  consecutive_shortfall_samples = s.consecutive_shortfall;
  shortfall_average_milli = sat_add s.shortfall_average_micro 999 / 1000;
  adapter_error_count = s.adapter_error_count;
}
