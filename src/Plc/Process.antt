-- ===== src/Plc/Process.antt =====
-- Loss, recovery and the delay line of src/plc.rs, one output sample at a time.
use rate_adjusting_pcm_ring.Common.{
  copy_prefix, ◌+◌, ◌-◌, ◌*◌, ◌/◌, ◌%◌, min, Option, none, some, Bool, not, ◌||◌, length, set, ◌==◌,
  if◌then◌else◌, div_ceil, sat_add, sat_mul,
}
use rate_adjusting_pcm_ring.Float.{Single, Double, Widen}
use rate_adjusting_pcm_ring.Plc.State.{Plc, blend, loss_gain, at}
use rate_adjusting_pcm_ring.Plc.Pitch.{detect_pitch}
use rate_adjusting_pcm_ring.Plc.Wave.{
  smooth_cycle_tail, freeze_from, write_back_from, expand_cycle, substitution,
}

module _ {F : Type 0} ⦃single : Single F⦄ where
  -- The first real sample after a loss freezes the envelope.
  unfoldable pub begin_recovery : Plc F → Plc F
  unfolding loss_gain
  begin_recovery p =
      let lost_frames = div_ceil p.lost p.ten_ms in
      let recovery = min (sat_add (p.pitch / 4) (sat_mul (lost_frames - 1) p.four_ms)) p.ten_ms in
      record p {
        recovery_length = recovery;
        recovery_left = recovery;
        recovery_gain = loss_gain p;
        lost = 0;
      }

  unfoldable pub recover : Plc F → F → F × Plc F
  unfolding begin_recovery substitution blend
  recover p0 sample =
      let p = if p0.lost == 0 then p0 else begin_recovery p0 in
      let (wave, p') = substitution p in
      let output =
        blend (single.mul wave p'.recovery_gain) sample (p'.recovery_length - p'.recovery_left)
          p'.recovery_length in
      if p.recovery_left == 0
      then (sample, p)
      else (output, record p' { recovery_left = p'.recovery_left - 1 })

  -- The output position of the delay line, and the step of both cursors.
  unfoldable pub delay_line : Plc F → F → F → (F × Bool) × Plc F
  delay_line p sample flag =
      let len = length p.history in
      let read = (p.next + len - length p.real) % len in
      (
        (at p.history read, not (single.is_zero (at p.real p.delayed))),
        record p {
          history = set p.history p.next sample;
          real = set p.real p.delayed flag;
          next = (p.next + 1) % len;
          delayed = (p.delayed + 1) % length p.real;
        },
      )

  unfoldable pub drain_sample : Plc F → (F × Bool) × Plc F
  unfolding delay_line
  drain_sample p = delay_line p single.zero single.zero

module _ {F R : Type 0} ⦃single : Single F⦄ (double : Double R) (wide : Widen F R) where
  unfoldable pub begin_loss : Plc F → Plc F
  unfolding freeze_from detect_pitch smooth_cycle_tail write_back_from
  begin_loss p0 =
      let end = length p0.history in
      let p1 = record p0 { frozen = freeze_from p0.history p0.next end 0 p0.frozen } in
      let pitch = detect_pitch double wide p1 in
      let quarter = pitch / 4 in
      let p2 = smooth_cycle_tail (record p1 {
        pitch = pitch;
        last_quarter = copy_prefix quarter (end - quarter) p1.frozen p1.last_quarter;
        cycle = pitch;
        phase = 0;
        overlap_left = 0;
      }) in
      record p2 { history = write_back_from p2.frozen p2.next quarter quarter 0 p2.history }

  unfoldable pub conceal : Plc F → F × Plc F
  unfolding begin_loss expand_cycle substitution loss_gain
  conceal p0 =
      let p1 = record p0 { recovery_left = 0 } in
      let p2 = if p1.lost == 0 then begin_loss p1 else p1 in
      let p3 = if p2.lost == p2.ten_ms || p2.lost == p2.ten_ms * 2 then expand_cycle p2 else p2 in
      let (sample, p4) = substitution p3 in
      (single.mul sample (loss_gain p4), record p4 { lost = sat_add p4.lost 1 })

  -- The sample that enters the delay line.
  unfoldable pub current : Plc F → Option F → F × Plc F
  unfolding recover conceal
  current p none = conceal p
  current p (some sample) = recover p sample

  -- `f32::from(input.is_some())`
  abbrev pub real_flag : Option F → F
  real_flag none = single.zero
  real_flag (some sample) = single.one

  unfoldable pub process : Plc F → Option F → (F × Bool) × Plc F
  unfolding current delay_line
  process p input = let (sample, p') = current p input in delay_line p' sample (real_flag input)
