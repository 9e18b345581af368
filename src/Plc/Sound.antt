-- ===== src/Plc/Sound.antt =====
-- `Plc` of src/plc.rs stays sound: the buffers keep their sizes, and every cursor its range.
pub mod Expansion
pub mod Loss
pub mod Recovery
pub mod Step
use rate_adjusting_pcm_ring.Common.{
  ℕ, zero, suc, ◌+◌, ◌-◌, ◌*◌, ◌/◌, ◌%◌, ◌≤◌, ◌<◌, ◌≡◌, ◌≢◌, ◌⊎◌, inl, inr, refl, ap, sym, subst,
  ◌∙◌, List, Option, none, some, Bool, true, false, Bool-cases, ◌||◌, arith, length, length-set,
  length-replicate, replicate, div_ceil, ◌^◌, set, ◌==◌, ==_iff, min, if◌then◌else◌, u64_max,
  sat_add, copy_prefix,
}
use native.Mathlib.Nat.{mod-lt}
use rate_adjusting_pcm_ring.Float.{Single, Double, Widen}
use rate_adjusting_pcm_ring.Plc.State.{Plc, at, new, samples_in_ms, lookahead}
use rate_adjusting_pcm_ring.Plc.Pitch.{detect_pitch}
use rate_adjusting_pcm_ring.Plc.Wave.{
  smooth_from, smooth_cycle_tail, freeze_from, write_back_from, continuation, save_overlap_from,
  expand_cycle, substitution, wrap_phase,
}
use rate_adjusting_pcm_ring.Plc.Process.{
  begin_recovery, recover, delay_line, begin_loss, conceal, process, drain_sample, current,
}
use rate_adjusting_pcm_ring.Plc.Bounds.{
  IsSized, detect_pitch-bounds, length-smooth_from, length-freeze_from, length-write_back_from,
  length-copy_prefix, wrap_phase-le,
}

-- A loss or a recovery: the cycle is at most three detected pitches long, and the phase inside it.
pub record IsRepeating {F : Type 0} (p : Plc F) : Type 0 where
  pub pitch_low : p.min_pitch ≤ p.pitch
  pub pitch_high : p.pitch ≤ p.max_pitch
  pub cycle_low : p.pitch ≤ p.cycle
  pub cycle_high : p.cycle ≤ p.pitch * 3
  pub phase_lt : p.phase < p.cycle
  pub overlap_le : p.overlap_left ≤ p.pitch / 4

-- How far the cycle was expanded.
pub record IsStaged {F : Type 0} (p : Plc F) : Type 0 where
  pub first : p.lost ≤ p.ten_ms → p.cycle ≡ p.pitch
  pub second : p.lost ≤ p.ten_ms * 2 → p.cycle ≤ p.pitch * 2

pub record IsSound {F : Type 0} (p : Plc F) : Type 0 where
  pub sized : IsSized p
  pub some_time : 0 < p.ten_ms
  pub short_time : p.ten_ms * 2 < u64_max
  pub losing : p.lost ≢ 0 → IsRepeating p × IsStaged p
  pub recovering : p.recovery_left ≢ 0 → IsRepeating p

-- A saturated sum that small is exact.
pub unsaturated : (n most : ℕ) → most < u64_max → sat_add n 1 ≤ most → n + 1 ≤ most
unfolding sat_add
unsaturated n most small le = ground arith

-- Inside a loss: the expansions due by its `n`th sample were made.
pub record IsLosing {F : Type 0} (n : ℕ) (p : Plc F) : Type 0 where
  pub sized : IsSized p
  pub some_time : 0 < p.ten_ms
  pub short_time : p.ten_ms * 2 < u64_max
  pub idle : p.recovery_left ≡ 0
  pub repeating : IsRepeating p
  pub first : n ≤ p.ten_ms → p.cycle ≡ p.pitch
  pub second : n ≤ p.ten_ms * 2 → p.cycle ≤ p.pitch * 2

module _ {F : Type 0} where
  -- The state with another phase and overlap.
  abbrev pub moved : Plc F → ℕ → ℕ → Plc F
  moved p phase overlap_left = record p { phase = phase; overlap_left = overlap_left }

  pub moved-IsRepeating :
      (p : Plc F) (phase overlap_left : ℕ)
      → IsRepeating p
      → phase < p.cycle
      → overlap_left ≤ p.overlap_left
      → IsRepeating (moved p phase overlap_left)
  moved-IsRepeating p phase overlap_left v inside shorter = record {
    pitch_low = v.pitch_low;
    pitch_high = v.pitch_high;
    cycle_low = v.cycle_low;
    cycle_high = v.cycle_high;
    phase_lt = inside;
    overlap_le = let o = v.overlap_le in omega arith;
  }

  pub moved-IsSized :
      (p : Plc F) (phase overlap_left : ℕ) → IsSized p → IsSized (moved p phase overlap_left)
  moved-IsSized p phase overlap_left z = assumption

module _ {F : Type 0} ⦃single : Single F⦄ where
  -- `substitution` moves the phase and the overlap only.
  pub substitution_moves :
      (p : Plc F) → (substitution p).1 ≡ moved p ((p.phase + 1) % p.cycle) (p.overlap_left - 1)
  unfolding substitution continuation
  substitution_moves p = elim (Bool-cases (p.overlap_left == 0)) [
    | inl e ↦
        let none_left : p.overlap_left ≡ p.overlap_left - 1 =
          let z = (==_iff p.overlap_left 0).0 e in omega arith in
        rw e (ap (λ n. moved p ((p.phase + 1) % p.cycle) n) none_left)
    | inr e ↦ rw e refl
  ]

  pub inside_cycle : (p : Plc F) → IsSized p → IsRepeating p → (p.phase + 1) % p.cycle < p.cycle
  inside_cycle p z v =
      let some_pitch = z.some_pitch in
      let low = v.pitch_low in
      let cycle_low = v.cycle_low in mod-lt (p.phase + 1) {m = p.cycle} (omega arith)
