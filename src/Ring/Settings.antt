-- ===== src/Ring/Settings.antt =====
-- `PlcMode` and `Settings` of src/ring.rs, and the validation of a configuration.
pub mod Valid
use rate_adjusting_pcm_ring.Common.{
  ℕ, zero, suc, ◌+◌, ◌*◌, ◌-◌, ◌/◌, ◌^◌, ◌≡◌, Bool, true, false, not, ◌&&◌, ◌||◌, Option, none,
  some, ltb, leb, ◌==◌, if◌then◌else◌, div_ceil,
}
use rate_adjusting_pcm_ring.Float.{Double}

pub data PlcMode : Type 0 where
  disabled g711_appendix_i : PlcMode

unfoldable pub from_ffi : ℕ → Option PlcMode
from_ffi zero = some disabled
from_ffi (suc zero) = some g711_appendix_i
from_ffi (suc (suc n)) = none

abbrev pub converter_quantum : ℕ
converter_quantum = 256

abbrev pub minimum_capacity : ℕ
minimum_capacity = converter_quantum * 2

-- `u32::MAX`
abbrev pub maximum_capacity : ℕ
maximum_capacity = 2 ^ 32 - 1

-- `isize::MAX / size_of::<f32>()` on a 64-bit target.
abbrev pub max_block : ℕ
max_block = (2 ^ 63 - 1) / 4

pub record Settings : Type 0 where
  pub capacity : ℕ
  pub input_rate_hz : ℕ
  pub output_rate_hz : ℕ
  pub reserve : ℕ
  pub target : ℕ
  pub max_producer : ℕ
  pub max_output : ℕ
  pub plc : PlcMode

-- The source samples that one largest callback may need at the worst ratio.
unfoldable pub callback_budget : ℕ → ℕ → ℕ → ℕ
callback_budget input_rate output_rate max_output =
    let numerator = output_rate * 999 in
    let denominator = input_rate * 1000 in
    (if ltb (numerator * 256) denominator
      then max_output * 256
      else div_ceil (max_output * denominator) numerator)
    + 1

-- The headroom that concealment asks for.
unfoldable pub has_headroom : Settings → PlcMode → Bool
has_headroom s disabled = true
has_headroom s g711_appendix_i = not (
    ltb s.reserve (callback_budget s.input_rate_hz s.output_rate_hz s.max_output)
    || ltb s.target s.reserve
    || ltb s.capacity (s.target + s.max_producer))

module _ {R : Type 0} ⦃double : Double R⦄ where
  -- `MINIMUM_RATIO`, `MAXIMUM_RATIO` and the conversion ratio of two rates.
  abbrev pub nominal_ratio : ℕ → ℕ → R
  nominal_ratio output_rate input_rate =
      double.div (double.of_count output_rate) (double.of_count input_rate)

  abbrev pub minimum_ratio : R
  minimum_ratio = double.div (double.of_count 1) (double.of_count 256)

  abbrev pub maximum_ratio : R
  maximum_ratio = double.of_count 256

-- `true` is `Ok(())`. `R` is `f64`.
unfoldable pub validate : {R : Type 0} (double : Double R) → Settings → Bool
unfolding has_headroom
validate {R} double s =
    let instance d : Double R = double in
    let ratio : R = nominal_ratio s.output_rate_hz s.input_rate_hz in
    not (
      not (leb minimum_capacity s.capacity && leb s.capacity maximum_capacity)
      || s.input_rate_hz == 0
      || s.output_rate_hz == 0
      || not (double.le minimum_ratio ratio && double.le ratio maximum_ratio)
      || ltb s.capacity s.reserve
      || ltb s.capacity s.target
      || s.max_producer == 0
      || s.max_output == 0
      || ltb max_block s.max_producer
      || ltb max_block s.max_output)
    && has_headroom s s.plc
