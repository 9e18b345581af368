-- ===== src/Plc/Bounds.antt =====
-- Where src/plc.rs reads and writes: the sizes of its buffers, and the detected pitch.
use rate_adjusting_pcm_ring.Common.{
  ℕ, zero, suc, ◌+◌, ◌-◌, ◌*◌, ◌/◌, ◌≤◌, ◌<◌, ◌≡◌, refl, ◌∙◌, List, Bool, true, false, arith,
  length, length-set, length-append, length-take, length-drop, take, drop, min, max, copy_prefix,
  div_ceil, if◌then◌else◌,
}
use rate_adjusting_pcm_ring.Float.{Single, Double, Widen}
use rate_adjusting_pcm_ring.Plc.State.{Plc}
use rate_adjusting_pcm_ring.Plc.Pitch.{score, search_from, detect_pitch}
use rate_adjusting_pcm_ring.Plc.Wave.{smooth_from, freeze_from, write_back_from, wrap_phase}

-- The buffers as `new` allocates them, and both cursors inside.
pub record IsSized {F : Type 0} (p : Plc F) : Type 0 where
  pub some_delay : 0 < length p.real
  pub room : p.max_pitch * 3 + length p.real ≡ length p.history
  pub frozen_size : length p.frozen ≡ length p.history
  pub quarter_size : length p.last_quarter ≡ length p.real
  pub overlap_size : length p.overlap ≡ length p.real
  pub some_pitch : 0 < p.min_pitch
  pub pitches : p.min_pitch ≤ p.max_pitch
  pub quarter_fits : p.max_pitch / 4 ≤ length p.real
  pub next_lt : p.next < length p.history
  pub delayed_lt : p.delayed < length p.real

-- `n` lags from `lag` on, all at most `high`.
abbrev LagsFit : ℕ → ℕ → ℕ → ℕ → Type 0
LagsFit high stride zero lag = Unit {0}
LagsFit high stride (suc n) lag = (lag ≤ high) × LagsFit high stride n (lag + stride)

coarse_lags : (high n lag : ℕ) → lag + n * 2 ≤ high + 2 → LagsFit high 2 n lag
coarse_lags high zero lag h = tt
coarse_lags high (suc n) lag h = (omega arith, coarse_lags high n (lag + 2) (omega arith))

fine_lags : (high n lag : ℕ) → lag + n ≤ high + 1 → LagsFit high 1 n lag
fine_lags high zero lag h = tt
fine_lags high (suc n) lag h = (omega arith, fine_lags high n (lag + 1) (omega arith))

coarse_rounds : (low high : ℕ) → low ≤ high → low + div_ceil (high + 1 - low) 2 * 2 ≤ high + 2
unfolding div_ceil
coarse_rounds low high le = omega arith

fine_rounds : (low high : ℕ) → low ≤ high → low + div_ceil (high + 1 - low) 1 ≤ high + 1
unfolding div_ceil
fine_rounds low high le = omega arith

module _ {F R : Type 0} ⦃single : Single F⦄ (double : Double R) (wide : Widen F R) where
  search_from-bounds :
      (p : Plc F) (low high stride step n lag : ℕ) (best : R) (pitch : ℕ)
      → low ≤ lag
      → LagsFit high stride n lag
      → low ≤ pitch
      → pitch ≤ high
      → let found = search_from double wide p stride step n lag best pitch in
        (low ≤ found) × (found ≤ high)
  unfolding search_from
  search_from-bounds p low high stride step zero lag best pitch from to h k = (h, k)
  search_from-bounds p low high stride step (suc n) lag best pitch from (here, later) h k =
      through (double.lt best (score double wide p lag step)) (λ best' pitch' h' k'.
        search_from-bounds p low high stride step n (lag + stride) best' pitch' (omega arith) later
          h' k')
    where
      Found : R → ℕ → Type 0
      Found best' pitch' =
          let found = search_from double wide p stride step n (lag + stride) best' pitch' in
          (low ≤ found) × (found ≤ high)

      through :
          (b : Bool)
          → ((best' : R) (pitch' : ℕ) → low ≤ pitch' → pitch' ≤ high → Found best' pitch')
          → Found (if b then score double wide p lag step else best) (if b then lag else pitch)
      through true go = go _ lag from here
      through false go = go best pitch h k

  -- The pitch is one of the lags that are searched.
  pub detect_pitch-bounds :
      (p : Plc F)
      → p.min_pitch ≤ p.max_pitch
      → (p.min_pitch ≤ detect_pitch double wide p) × (detect_pitch double wide p ≤ p.max_pitch)
  unfolding detect_pitch
  detect_pitch-bounds p le =
      let n : ℕ = div_ceil (p.max_pitch + 1 - p.min_pitch) 2 in
      let coarse : ℕ =
        search_from double wide p 2 2 n p.min_pitch double.neg_infinity p.min_pitch in
      let (a, b) =
        search_from-bounds p p.min_pitch p.max_pitch 2 2 n p.min_pitch double.neg_infinity
          p.min_pitch (omega arith)
          (coarse_lags p.max_pitch n p.min_pitch (coarse_rounds p.min_pitch p.max_pitch le))
          (omega arith) le in
      let from : ℕ = max (coarse - 1) p.min_pitch in
      let to : ℕ = min (coarse + 1) p.max_pitch in
      let m : ℕ = div_ceil (to + 1 - from) 1 in
      let (c, d) =
        search_from-bounds p p.min_pitch to 1 1 m from double.neg_infinity coarse (omega arith)
          (fine_lags to m from (fine_rounds from to (omega arith))) a (omega arith) in
      (c, omega arith)

module _ {F : Type 0} ⦃single : Single F⦄ where
  pub length-smooth_from :
      (p : Plc F) (n i : ℕ) (frozen : List F) → length (smooth_from p n i frozen) ≡ length frozen
  unfolding smooth_from
  length-smooth_from p zero i frozen = refl
  length-smooth_from p (suc n) i frozen = length-smooth_from p n (i + 1) _ ∙ length-set frozen _ _

  pub length-freeze_from :
      (history : List F) (next n i : ℕ) (frozen : List F)
      → length (freeze_from history next n i frozen) ≡ length frozen
  unfolding freeze_from
  length-freeze_from history next zero i frozen = refl
  length-freeze_from history next (suc n) i frozen =
      length-freeze_from history next n (i + 1) _ ∙ length-set frozen i _

  pub length-write_back_from :
      (frozen : List F) (next quarter n i : ℕ) (history : List F)
      → length (write_back_from frozen next quarter n i history) ≡ length history
  unfolding write_back_from
  length-write_back_from frozen next quarter zero i history = refl
  length-write_back_from frozen next quarter (suc n) i history =
      length-write_back_from frozen next quarter n (i + 1) _ ∙ length-set history _ _

  pub length-copy_prefix :
      (n from : ℕ) (src dst : List F)
      → from + n ≤ length src
      → n ≤ length dst
      → length (copy_prefix n from src dst) ≡ length dst
  length-copy_prefix n from src dst h k =
      let taken = length-take n (drop from src) in
      let behind = length-drop from src in
      let rest = length-drop n dst in
      length-append (take n (drop from src)) (drop n dst) ∙ omega arith

pub wrap_phase-le : (fuel pitch phase : ℕ) → wrap_phase fuel pitch phase ≤ phase
unfolding wrap_phase
wrap_phase-le zero pitch phase = omega arith
wrap_phase-le (suc fuel) pitch phase =
    let h = wrap_phase-le fuel pitch (phase - pitch) in ground arith
