-- ===== src/Plc/Pitch.antt =====
-- `detect_pitch` of src/plc.rs: the correlation scores and the two searches, in `f64`.
use rate_adjusting_pcm_ring.Common.{
  ℕ, zero, suc, ◌+◌, ◌-◌, min, max, List, length, if◌then◌else◌, div_ceil,
}
use rate_adjusting_pcm_ring.Float.{Single, Double, Widen}
use rate_adjusting_pcm_ring.Plc.State.{Plc, at}

-- The pitch search, in `f64` as `R`.
module _ {F R : Type 0} ⦃single : Single F⦄ (double : Double R) (wide : Widen F R) where
  -- The loop of `score`: `n` rounds from index `i` on.
  unfoldable pub score_from : List F → ℕ → ℕ → ℕ → ℕ → R → R → R × R
  score_from frozen lag step zero i correlation energy = (correlation, energy)
  score_from frozen lag step (suc n) i correlation energy =
      let a = wide.widen (at frozen i) in
      let b = wide.widen (at frozen (i - lag)) in
      score_from frozen lag step n (i + step) (double.add correlation (double.mul a b))
        (double.add energy (double.mul b b))

  unfoldable pub score : Plc F → ℕ → ℕ → R
  unfolding score_from
  score p lag step =
      let zero_f64 = double.of_count 0 in
      let start = length p.frozen - p.analysis in
      let (correlation, energy) =
        score_from p.frozen lag step (div_ceil p.analysis step) start zero_f64 zero_f64 in
      if double.lt zero_f64 energy then double.div correlation (double.sqrt energy) else zero_f64

  -- A search loop: `n` lags from `lag` on, `stride` apart, scored at `step`.
  unfoldable pub search_from : Plc F → ℕ → ℕ → ℕ → ℕ → R → ℕ → ℕ
  search_from p stride step zero lag best pitch = pitch
  search_from p stride step (suc n) lag best pitch =
      let value = score p lag step in
      let better = double.lt best value in
      search_from p stride step n (lag + stride) (if better then value else best)
        (if better then lag else pitch)

  -- The rounds of `(a..=b).step_by(k)`.
  abbrev pub rounds : ℕ → ℕ → ℕ → ℕ
  rounds a b k = div_ceil (b + 1 - a) k

  unfoldable pub detect_pitch : Plc F → ℕ
  unfolding search_from
  detect_pitch p =
      let lowest = double.neg_infinity in
      let coarse =
        search_from p 2 2 (rounds p.min_pitch p.max_pitch 2) p.min_pitch lowest p.min_pitch in
      let from = max (coarse - 1) p.min_pitch in
      let to = min (coarse + 1) p.max_pitch in
      search_from p 1 1 (rounds from to 1) from lowest coarse
