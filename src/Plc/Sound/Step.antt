-- ===== src/Plc/Sound/Step.antt =====
-- One output sample of src/plc.rs: `process`, `drain_sample` and the delay line, from `new` on.
use rate_adjusting_pcm_ring.Common.{
  ℕ, ◌+◌, ◌*◌, ◌<◌, refl, sym, ◌∙◌, Option, none, some, arith, length, length-set, length-replicate,
  div_ceil, ◌^◌,
}
use native.Mathlib.Nat.{mod-lt}
use rate_adjusting_pcm_ring.Float.{Single, Double, Widen}
use rate_adjusting_pcm_ring.Plc.State.{Plc, new, samples_in_ms, lookahead, reset}
use rate_adjusting_pcm_ring.Plc.Process.{delay_line, process, drain_sample}
use rate_adjusting_pcm_ring.Plc.Sound.{IsSound}
use rate_adjusting_pcm_ring.Plc.Sound.Loss.{conceal-IsSound}
use rate_adjusting_pcm_ring.Plc.Sound.Recovery.{recover-IsSound}

module _ {F : Type 0} ⦃single : Single F⦄ where
  delay_line-IsSound : (p : Plc F) (x flag : F) → IsSound p → IsSound (delay_line p x flag).1
  unfolding delay_line
  delay_line-IsSound p x flag v =
      let z = v.sized in
      let some_delay = z.some_delay in
      let size = length-set p.history p.next x in
      let size' = length-set p.real p.delayed flag in
      let room = z.room in
      record {
        sized = record {
          some_delay = omega arith;
          room = omega arith;
          frozen_size = z.frozen_size ∙ sym size;
          quarter_size = z.quarter_size ∙ sym size';
          overlap_size = z.overlap_size ∙ sym size';
          some_pitch = z.some_pitch;
          pitches = z.pitches;
          quarter_fits = let q = z.quarter_fits in omega arith;
          next_lt = rw size (mod-lt (p.next + 1) {m = length p.history} (omega arith));
          delayed_lt = rw size' (mod-lt (p.delayed + 1) {m = length p.real} (omega arith));
        };
        some_time = v.some_time;
        short_time = v.short_time;
        losing = λ h. let (a, b) = v.losing h in (assumption, assumption);
        recovering = λ h. let a = v.recovering h in assumption;
      }

module _ {F R : Type 0} ⦃single : Single F⦄ (double : Double R) (wide : Widen F R) where
  -- `process` keeps the concealment sound, whether the sample is there or missing: the buffers keep
  -- their sizes, the write and flag cursors stay inside them, and during a loss or a recovery the pitch
  -- is one that is searched, the cycle is at most three pitches long, the phase is inside the cycle and
  -- the overlap that is left inside its buffer.
  pub process-IsSound :
      (p : Plc F) (input : Option F) → IsSound p → IsSound (process double wide p input).1
  unfolding process
  process-IsSound p none v = delay_line-IsSound _ _ _ (conceal-IsSound double wide p v)
  process-IsSound p (some sample) v = delay_line-IsSound _ _ _ (recover-IsSound p sample v)

module _ {F : Type 0} ⦃single : Single F⦄ where
  pub drain_sample-IsSound : (p : Plc F) → IsSound p → IsSound (drain_sample p).1
  unfolding drain_sample
  drain_sample-IsSound p v = delay_line-IsSound p single.zero single.zero v

  pub reset-IsSound : (p : Plc F) → IsSound p → IsSound (reset p)
  unfolding reset
  reset-IsSound p v =
      let z = v.sized in
      let size = length-replicate (length p.history) single.zero in
      let size' = length-replicate (length p.real) single.zero in
      let some_delay = z.some_delay in
      let next_lt = z.next_lt in
      let room = z.room in
      record {
        sized = record {
          some_delay = omega arith;
          room = omega arith;
          frozen_size = z.frozen_size ∙ sym size;
          quarter_size = z.quarter_size ∙ sym size';
          overlap_size = z.overlap_size ∙ sym size';
          some_pitch = z.some_pitch;
          pitches = z.pitches;
          quarter_fits = let q = z.quarter_fits in omega arith;
          next_lt = omega arith;
          delayed_lt = omega arith;
        };
        some_time = v.some_time;
        short_time = v.short_time;
        losing = λ h. absurd (h refl);
        recovering = λ h. absurd (h refl);
      }

  -- A new concealment is sound, for every 32-bit sample rate and far beyond.
  pub new-IsSound : (rate : ℕ) → 0 < rate → rate < 2 ^ 48 → IsSound {F = F} (new rate)
  unfolding new samples_in_ms lookahead div_ceil
  new-IsSound rate some_rate small =
      let delay : ℕ = div_ceil (rate * 15) 4000 in
      let longest : ℕ = div_ceil (rate * 15) 1000 in
      let size = length-replicate delay single.zero in
      let size' = length-replicate (longest * 3 + delay) single.zero in
      record {
        sized = record {
          some_delay = omega arith;
          room = omega arith;
          frozen_size = refl;
          quarter_size = refl;
          overlap_size = refl;
          some_pitch = omega arith;
          pitches = omega arith;
          quarter_fits = omega arith;
          next_lt = omega arith;
          delayed_lt = omega arith;
        };
        some_time = omega arith;
        short_time = omega arith;
        losing = λ h. absurd (h refl);
        recovering = λ h. absurd (h refl);
      }
