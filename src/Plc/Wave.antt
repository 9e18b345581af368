-- ===== src/Plc/Wave.antt =====
-- The repeated waveform of src/plc.rs: freezing, smoothing, continuation and expansion.
use rate_adjusting_pcm_ring.Common.{
  ℕ, zero, suc, ◌+◌, ◌-◌, ◌/◌, ◌%◌, List, length, set, ltb, ◌==◌, if◌then◌else◌,
}
use rate_adjusting_pcm_ring.Float.{Single}
use rate_adjusting_pcm_ring.Plc.State.{Plc, blend, at}

-- `while self.phase > self.pitch { self.phase -= self.pitch }`, on fuel: `phase` rounds are enough,
-- since the pitch is at least 1.
unfoldable pub wrap_phase : ℕ → ℕ → ℕ → ℕ
wrap_phase zero pitch phase = phase
wrap_phase (suc fuel) pitch phase =
    let rest = wrap_phase fuel pitch (phase - pitch) in if ltb pitch phase then rest else phase

module _ {F : Type 0} ⦃single : Single F⦄ where
  -- The loop of `smooth_cycle_tail` from round `i` on.
  unfoldable pub smooth_from : Plc F → ℕ → ℕ → List F → List F
  unfolding blend
  smooth_from p zero i frozen = frozen
  smooth_from p (suc n) i frozen =
      let end = length p.frozen in
      let quarter = p.pitch / 4 in
      smooth_from p n (i + 1) (
        set frozen (end - quarter + i)
          (blend (at p.last_quarter i) (at frozen (end - p.cycle - quarter + i)) i quarter))

  unfoldable pub smooth_cycle_tail : Plc F → Plc F
  unfolding smooth_from
  smooth_cycle_tail p = record p { frozen = smooth_from p (p.pitch / 4) 0 p.frozen }

  -- The two copying loops of `begin_loss`.
  unfoldable pub freeze_from : List F → ℕ → ℕ → ℕ → List F → List F
  freeze_from history next zero i frozen = frozen
  freeze_from history next (suc n) i frozen =
      freeze_from history next n (i + 1) (set frozen i (at history ((next + i) % length history)))

  unfoldable pub write_back_from : List F → ℕ → ℕ → ℕ → ℕ → List F → List F
  write_back_from frozen next quarter zero i history = history
  write_back_from frozen next quarter (suc n) i history =
      let end = length frozen in
      write_back_from frozen next quarter n (i + 1)
        (set history ((next + end - quarter + i) % end) (at frozen (end - quarter + i)))

  unfoldable pub continuation : Plc F → F × Plc F
  continuation p = (
    at p.frozen (length p.frozen - p.cycle + p.phase),
    record p { phase = (p.phase + 1) % p.cycle },
  )

  -- The loop of `expand_cycle` that saves the old waveform.
  unfoldable pub save_overlap_from : ℕ → ℕ → Plc F → Plc F
  unfolding continuation
  save_overlap_from zero i p = p
  save_overlap_from (suc n) i p =
      let (sample, p') = continuation p in
      save_overlap_from n (i + 1) (record p' { overlap = set p.overlap i sample })

  unfoldable pub expand_cycle : Plc F → Plc F
  unfolding save_overlap_from wrap_phase smooth_cycle_tail
  expand_cycle p =
      let quarter = p.pitch / 4 in
      let saved = save_overlap_from quarter 0 p in
      let smoothed = smooth_cycle_tail (record saved {
        phase = wrap_phase p.phase p.pitch p.phase;
        cycle = saved.cycle + p.pitch;
      }) in
      record smoothed { overlap_left = quarter }

  unfoldable pub substitution : Plc F → F × Plc F
  unfolding continuation blend
  substitution p =
      let (sample, p') = continuation p in
      let quarter = p'.pitch / 4 in
      let i = quarter - p'.overlap_left in
      if p'.overlap_left == 0 then (sample, p') else (
        blend (at p'.overlap i) sample i quarter,
        record p' { overlap_left = p'.overlap_left - 1 },
      )
