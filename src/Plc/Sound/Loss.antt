-- ===== src/Plc/Sound/Loss.antt =====
-- The loss of src/plc.rs: `begin_loss`, and a sample of `conceal`.
use rate_adjusting_pcm_ring.Common.{
  ℕ, ◌+◌, ◌-◌, ◌*◌, ◌/◌, ◌%◌, ◌≡◌, inl, inr, refl, ap, sym, subst, ◌∙◌, List, Bool, true, false,
  Bool-cases, ◌||◌, arith, length, ◌==◌, ==_iff, if◌then◌else◌, sat_add, copy_prefix,
}
use rate_adjusting_pcm_ring.Float.{Single, Double, Widen}
use rate_adjusting_pcm_ring.Plc.State.{Plc}
use rate_adjusting_pcm_ring.Plc.Pitch.{detect_pitch}
use rate_adjusting_pcm_ring.Plc.Wave.{
  smooth_from, smooth_cycle_tail, freeze_from, expand_cycle, substitution,
}
use rate_adjusting_pcm_ring.Plc.Process.{begin_loss, conceal}
use rate_adjusting_pcm_ring.Plc.Bounds.{
  detect_pitch-bounds, length-smooth_from, length-freeze_from, length-write_back_from,
  length-copy_prefix,
}
use rate_adjusting_pcm_ring.Plc.Sound.{
  IsSound, IsLosing, moved, moved-IsRepeating, moved-IsSized, substitution_moves, inside_cycle,
  unsaturated,
}
use rate_adjusting_pcm_ring.Plc.Sound.Expansion.{expand_cycle_grows, expand_cycle-IsLosing}

module _ {F R : Type 0} ⦃single : Single F⦄ (double : Double R) (wide : Widen F R) where
  begin_loss-IsLosing :
      (p : Plc F) → IsSound p → p.recovery_left ≡ 0 → IsLosing 0 (begin_loss double wide p)
  unfolding begin_loss smooth_cycle_tail
  begin_loss-IsLosing p v idle =
      let z = v.sized in
      let p1 : Plc F = record p {
        frozen = freeze_from p.history p.next (length p.history) 0 p.frozen;
      } in
      let (low, high) = detect_pitch-bounds double wide p1 z.pitches in
      let pitch : ℕ = detect_pitch double wide p1 in
      let quarter : ℕ = pitch / 4 in
      let frozen_size = length-freeze_from p.history p.next (length p.history) 0 p.frozen in
      let fits = z.quarter_fits in
      let room = z.room in
      let same = z.frozen_size in
      let quarters = z.quarter_size in
      let some_pitch = z.some_pitch in
      let p2 : Plc F = record p1 {
        pitch = pitch;
        last_quarter = copy_prefix quarter (length p.history - quarter) p1.frozen p.last_quarter;
        cycle = pitch;
        phase = 0;
        overlap_left = 0;
      } in
      let smoothed : List F = smooth_from p2 quarter 0 p1.frozen in
      let size_h : length (begin_loss double wide p).history ≡ length p.history =
        length-write_back_from smoothed p.next quarter quarter 0 p.history in
      let size_f : length (begin_loss double wide p).frozen ≡ length p.frozen =
        length-smooth_from p2 quarter 0 p1.frozen ∙ frozen_size in
      let size_q : length (begin_loss double wide p).last_quarter ≡ length p.last_quarter =
        length-copy_prefix quarter (length p.history - quarter) p1.frozen p.last_quarter
          (omega arith) (omega arith) in
      record {
        sized = record {
          some_delay = z.some_delay;
          room = room ∙ sym size_h;
          frozen_size = size_f ∙ (same ∙ sym size_h);
          quarter_size = size_q ∙ quarters;
          overlap_size = z.overlap_size;
          some_pitch = z.some_pitch;
          pitches = z.pitches;
          quarter_fits = z.quarter_fits;
          next_lt = rw size_h z.next_lt;
          delayed_lt = z.delayed_lt;
        };
        some_time = v.some_time;
        short_time = v.short_time;
        idle = idle;
        repeating = record {
          pitch_low = low;
          pitch_high = high;
          cycle_low = omega arith;
          cycle_high = omega arith;
          phase_lt = omega arith;
          overlap_le = omega arith;
        };
        first = λ h. refl;
        second = λ h. omega arith;
      }

  -- A loss is entered with its first missing sample.
  entered :
      (p : Plc F)
      → IsSound p
      → p.recovery_left ≡ 0
      → let q = if p.lost == 0 then begin_loss double wide p else p in
        IsLosing p.lost q × (q.lost ≡ p.lost)
  entered p v idle = elim (Bool-cases (p.lost == 0)) [
    | inl e ↦
        let first = (==_iff p.lost 0).0 e in
        through (p.lost == 0)
          (λ _. (
            subst (λ n. IsLosing n (begin_loss double wide p)) (sym first)
                (begin_loss-IsLosing p v idle),
            unfold begin_loss in refl,
          ))
          (λ h. cc)
    | inr e ↦
        let (a, b) = v.losing (λ z. cc (e, (==_iff p.lost 0).1 z)) in
        let held : IsLosing p.lost p = record {
          sized = v.sized;
          some_time = v.some_time;
          short_time = v.short_time;
          idle = idle;
          repeating = a;
          first = b.first;
          second = b.second;
        } in
        through (p.lost == 0) (λ h. cc) (λ _. (held, refl))
  ]
    where
      through :
          (b : Bool)
          → (b ≡ true
              → IsLosing p.lost (begin_loss double wide p)
                × ((begin_loss double wide p).lost ≡ p.lost))
          → (b ≡ false → IsLosing p.lost p × (p.lost ≡ p.lost))
          → let q = if b then begin_loss double wide p else p in
            IsLosing p.lost q × (q.lost ≡ p.lost)
      through true h k = h refl
      through false h k = k refl

module _ {F : Type 0} ⦃single : Single F⦄ where
  next_sample-IsLosing : (n : ℕ) (p : Plc F) → IsLosing n p → IsLosing (n + 1) p
  next_sample-IsLosing n p v = record {
    sized = v.sized;
    some_time = v.some_time;
    short_time = v.short_time;
    idle = v.idle;
    repeating = v.repeating;
    first = λ h. v.first (omega arith);
    second = λ h. v.second (omega arith);
  }

  expanded :
      (p : Plc F)
      → IsLosing p.lost p
      → let q = if p.lost == p.ten_ms || p.lost == p.ten_ms * 2 then expand_cycle p else p in
        IsLosing (p.lost + 1) q × (q.lost ≡ p.lost)
  expanded p v =
      through (p.lost == p.ten_ms) (p.lost == p.ten_ms * 2) (==_iff p.lost p.ten_ms).0
        (==_iff p.lost (p.ten_ms * 2)).0
    where
      same_lost : (expand_cycle p).lost ≡ p.lost
      same_lost = ap (λ (q : Plc F). q.lost) (expand_cycle_grows p).4

      through :
          (a b : Bool)
          → (a ≡ true → p.lost ≡ p.ten_ms)
          → (b ≡ true → p.lost ≡ p.ten_ms * 2)
          → let q = if a || b then expand_cycle p else p in
            IsLosing (p.lost + 1) q × (q.lost ≡ p.lost)
      through true b h k = (expand_cycle-IsLosing p.lost p v (inl (h refl)), same_lost)
      through false true h k = (expand_cycle-IsLosing p.lost p v (inr (k refl)), same_lost)
      through false false h k = (next_sample-IsLosing p.lost p v, refl)

  counted-IsSound :
      (n : ℕ) (p : Plc F)
      → IsLosing (n + 1) p
      → p.lost ≡ n
      → IsSound (record (substitution p).1 { lost = sat_add (substitution p).1.lost 1 })
  counted-IsSound n p v e =
      let m : Plc F = moved p ((p.phase + 1) % p.cycle) (p.overlap_left - 1) in
      let still =
        moved-IsRepeating p ((p.phase + 1) % p.cycle) (p.overlap_left - 1) v.repeating
          (inside_cycle p v.sized v.repeating) (omega arith) in
      let z = moved-IsSized p ((p.phase + 1) % p.cycle) (p.overlap_left - 1) v.sized in
      let short = v.short_time in
      let all : IsSound (record m { lost = sat_add p.lost 1 }) = record {
        sized = assumption;
        some_time = v.some_time;
        short_time = v.short_time;
        losing = λ h. (
          assumption,
          record {
            first =
                λ h. v.first (let b = unsaturated p.lost p.ten_ms (omega arith) h in omega arith);
            second = λ h.
                v.second (let b = unsaturated p.lost (p.ten_ms * 2) (omega arith) h in omega arith);
          },
        );
        recovering = λ h. absurd (h v.idle);
      } in
      subst (λ (q : Plc F). IsSound (record q { lost = sat_add q.lost 1 }))
        (sym (substitution_moves p)) all

module _ {F R : Type 0} ⦃single : Single F⦄ (double : Double R) (wide : Widen F R) where
  pub conceal-IsSound : (p : Plc F) → IsSound p → IsSound (conceal double wide p).1
  unfolding conceal
  conceal-IsSound p v =
      let p1 : Plc F = record p { recovery_left = 0 } in
      let z = v.sized in
      let v1 : IsSound p1 = record {
        sized = assumption;
        some_time = v.some_time;
        short_time = v.short_time;
        losing = λ h. let (a, b) = v.losing h in (assumption, assumption);
        recovering = λ h. absurd (h refl);
      } in
      let (lost, same) = entered double wide p1 v1 refl in
      let p2 : Plc F = if p1.lost == 0 then begin_loss double wide p1 else p1 in
      let (grown, same') = expanded p2 (subst (λ n. IsLosing n p2) (sym same) lost) in
      let p3 : Plc F =
        if p2.lost == p2.ten_ms || p2.lost == p2.ten_ms * 2 then expand_cycle p2 else p2 in
      counted-IsSound p2.lost p3 grown same'
