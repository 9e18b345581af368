-- ===== src/Api/Consumer.antt =====
-- The consumer's functions of src/lib.rs.
use rate_adjusting_pcm_ring.Common.{
  ℕ, List, ◌++◌, Option, none, some, Bool, not, leb, length, if◌then◌else◌, drop,
}
use rate_adjusting_pcm_ring.Common.Int.{ℤ}
use rate_adjusting_pcm_ring.Float.{Single, Double, Widen}
use rate_adjusting_pcm_ring.Ring.State.{Ring}
use rate_adjusting_pcm_ring.Ring.Consumer.Render.{
  consumer_render_sample, consumer_render, consumer_reset,
}
use rate_adjusting_pcm_ring.Api.Codes.{result_ok, result_adapter_error}
use rate_adjusting_pcm_ring.Api.Checks.{ok, ◌>>=◌, ◌>>◌, require, non_null, checked_input, answer}

abbrev pub code_of_fault : Bool → ℤ
code_of_fault failed = if failed then result_adapter_error else result_ok

module _ {F R C : Type 0} ⦃single : Single F⦄ ⦃double : Double R⦄ where
  -- It has no out pointer.
  unfoldable pub ring_consumer_reset : Option (Ring F R C) → ℤ × Unit {0} × Option (Ring F R C)
  unfolding consumer_reset
  ring_consumer_reset ring = answer tt ring (do
    r ← non_null ring
    let (done, r') = consumer_reset r
    ok (code_of_fault (not done), tt, some r'))

-- The caller's array once its first samples were written.
abbrev pub written_to : {A : Type 0} → Option (List A) → List A → Option (List A)
written_to none rendered = none
written_to (some old) rendered = some (rendered ++ drop (length rendered) old)

module _ {F R C : Type 0} ⦃single : Single F⦄ ⦃double : Double R⦄ (wide : Widen F R) where
  -- The sample and whether it is real are two out pointers, of which either may be null.
  unfoldable pub ring_consumer_render_sample :
      Option (Ring F R C)
      → Option F
      → Option Bool
      → ℤ × (Option F × Option Bool) × Option (Ring F R C)
  unfolding consumer_render_sample
  ring_consumer_render_sample ring sample real =
      answer (sample, real) ring
        (do
          old_sample ← non_null sample
          old_real ← non_null real
          r ← non_null ring
          let (out, r') = consumer_render_sample wide r
          ok (code_of_fault out.2, (some out.0, some out.1), some r'))

  unfoldable pub ring_consumer_render :
      Option (Ring F R C)
      → Option (List F)
      → ℕ
      → Option ℕ
      → ℤ × (Option (List F) × Option ℕ) × Option (Ring F R C)
  unfolding checked_input consumer_render
  ring_consumer_render ring output samples real_samples =
      answer (output, real_samples) ring
        (do
          old ← non_null real_samples
          r ← non_null ring
          require (leb samples r.shared.max_output)
          block ← checked_input output samples
          let (out, r') = consumer_render wide samples r
          ok (code_of_fault out.2, (written_to output out.0, some out.1), some r'))
