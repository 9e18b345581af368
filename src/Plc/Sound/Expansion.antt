-- ===== src/Plc/Sound/Expansion.antt =====
-- `expand_cycle` of src/plc.rs lengthens the cycle of a loss by one pitch.
use rate_adjusting_pcm_ring.Common.{
  ℕ, zero, suc, ◌+◌, ◌*◌, ◌/◌, ◌≤◌, ◌≡◌, ◌⊎◌, refl, sym, subst, ◌∙◌, List, arith, length,
  length-set, set,
}
use rate_adjusting_pcm_ring.Float.{Single}
use rate_adjusting_pcm_ring.Plc.State.{Plc}
use rate_adjusting_pcm_ring.Plc.Wave.{
  smooth_from, smooth_cycle_tail, continuation, save_overlap_from, expand_cycle, wrap_phase,
}
use rate_adjusting_pcm_ring.Plc.Bounds.{IsSized, length-smooth_from, wrap_phase-le}
use rate_adjusting_pcm_ring.Plc.Sound.{IsRepeating, IsLosing}

module _ {F : Type 0} ⦃single : Single F⦄ where
  -- The copies of the waveform that is left keep the buffers, the pitch and the cycle.
  save_overlap_from_keeps :
      (n i : ℕ) (p : Plc F)
      → (phase : ℕ) × (overlap : List F) × (length overlap ≡ length p.overlap)
        × (save_overlap_from n i p ≡ record p { phase = phase; overlap = overlap })
  unfolding save_overlap_from continuation
  save_overlap_from_keeps zero i p = (p.phase, p.overlap, refl, refl)
  save_overlap_from_keeps (suc n) i p =
      let p' : Plc F = record (continuation p).1 { overlap = set p.overlap i (continuation p).0 } in
      let (phase, overlap, size, same) = save_overlap_from_keeps n (i + 1) p' in
      (phase, overlap, size ∙ length-set p.overlap i (continuation p).0, same)

  -- The cycle grows by one pitch.
  pub expand_cycle_grows :
      (p : Plc F)
      → (overlap frozen : List F) × (length overlap ≡ length p.overlap)
        × (length frozen ≡ length p.frozen)
        × (expand_cycle p ≡ record p {
          phase = wrap_phase p.phase p.pitch p.phase;
          cycle = p.cycle + p.pitch;
          overlap_left = p.pitch / 4;
          overlap = overlap;
          frozen = frozen;
        })
  unfolding expand_cycle smooth_cycle_tail
  expand_cycle_grows p =
      let (phase, overlap, size, same) = save_overlap_from_keeps (p.pitch / 4) 0 p in
      let smoothed : Plc F = record p {
        phase = wrap_phase p.phase p.pitch p.phase;
        cycle = p.cycle + p.pitch;
        overlap = overlap;
      } in
      (
        overlap,
        smooth_from smoothed (p.pitch / 4) 0 p.frozen,
        size,
        length-smooth_from smoothed (p.pitch / 4) 0 p.frozen,
        rw same refl,
      )

  -- The expansion is made at 10 ms and at 20 ms.
  pub expand_cycle-IsLosing :
      (n : ℕ) (p : Plc F)
      → IsLosing n p
      → (n ≡ p.ten_ms) ⊎ (n ≡ p.ten_ms * 2)
      → IsLosing (n + 1) (expand_cycle p)
  expand_cycle-IsLosing n p v due =
      let (overlap, frozen, size, size', same) = expand_cycle_grows p in
      let z = v.sized in
      let w = v.repeating in
      let grown : Plc F = record p {
        phase = wrap_phase p.phase p.pitch p.phase;
        cycle = p.cycle + p.pitch;
        overlap_left = p.pitch / 4;
        overlap = overlap;
        frozen = frozen;
      } in
      let sized : IsSized grown = record {
        some_delay = z.some_delay;
        room = z.room;
        frozen_size = size' ∙ z.frozen_size;
        quarter_size = z.quarter_size;
        overlap_size = size ∙ z.overlap_size;
        some_pitch = z.some_pitch;
        pitches = z.pitches;
        quarter_fits = z.quarter_fits;
        next_lt = z.next_lt;
        delayed_lt = z.delayed_lt;
      } in
      let time = v.some_time in
      let short : p.cycle ≤ p.pitch * 2 = v.second (omega arith) in
      let repeating : IsRepeating grown = record {
        pitch_low = w.pitch_low;
        pitch_high = w.pitch_high;
        cycle_low = omega arith;
        cycle_high = omega arith;
        phase_lt =
            let a = wrap_phase-le p.phase p.pitch p.phase in let b = w.phase_lt in omega arith;
        overlap_le = omega arith;
      } in
      let all : IsLosing (n + 1) grown = record {
        sized = sized;
        some_time = v.some_time;
        short_time = v.short_time;
        idle = v.idle;
        repeating = repeating;
        first = λ h. absurd (omega arith);
        second = λ h. let e = v.first (omega arith) in omega arith;
      } in
      subst (λ q. IsLosing (n + 1) q) (sym same) all
