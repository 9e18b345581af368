-- ===== src/Plc/State.antt =====
-- The record `Plc` of src/plc.rs, its construction and reset, and its two gains. The boxed slices are
-- lists: a read past the end gives zero and a write past the end nothing, where the source panics.
use rate_adjusting_pcm_ring.Common.{ℕ, ◌+◌, ◌-◌, ◌*◌, List, length, get_or, replicate, div_ceil}
use rate_adjusting_pcm_ring.Float.{Single}

pub record Plc (F : Type 0) : Type 0 where
  pub history : List F
  pub frozen : List F
  pub last_quarter : List F
  pub overlap : List F
  pub real : List F
  pub next : ℕ
  pub delayed : ℕ
  pub min_pitch : ℕ
  pub max_pitch : ℕ
  pub analysis : ℕ
  pub ten_ms : ℕ
  pub pitch : ℕ
  pub cycle : ℕ
  pub phase : ℕ
  pub lost : ℕ
  pub overlap_left : ℕ
  pub recovery_left : ℕ
  pub recovery_length : ℕ
  pub recovery_gain : F
  pub four_ms : ℕ

-- `(rate * ms).div_ceil(1000)` and the 3.75 ms lookahead.
unfoldable pub samples_in_ms : ℕ → ℕ → ℕ
samples_in_ms rate ms = div_ceil (rate * ms) 1000

unfoldable pub lookahead : ℕ → ℕ
lookahead rate = div_ceil (rate * 15) 4000

module _ {F : Type 0} ⦃single : Single F⦄ where
  unfoldable pub new : ℕ → Plc F
  unfolding samples_in_ms lookahead
  new rate =
      let delay = lookahead rate in
      let max_pitch = samples_in_ms rate 15 in
      let history = max_pitch * 3 + delay in
      record {
        history = replicate history single.zero;
        frozen = replicate history single.zero;
        last_quarter = replicate delay single.zero;
        overlap = replicate delay single.zero;
        real = replicate delay single.zero;
        next = 0;
        delayed = 0;
        min_pitch = samples_in_ms rate 5;
        max_pitch = max_pitch;
        analysis = samples_in_ms rate 20;
        ten_ms = samples_in_ms rate 10;
        pitch = 0;
        cycle = 0;
        phase = 0;
        lost = 0;
        overlap_left = 0;
        recovery_left = 0;
        recovery_length = 0;
        recovery_gain = single.one;
        four_ms = samples_in_ms rate 4;
      }

  unfoldable pub reset : Plc F → Plc F
  reset p = record p {
    history = replicate (length p.history) single.zero;
    real = replicate (length p.real) single.zero;
    next = 0;
    delayed = 0;
    lost = 0;
    recovery_left = 0;
  }

  unfoldable pub blend : F → F → ℕ → ℕ → F
  blend old new index count =
      let weight = single.div (single.of_count (index + 1)) (single.of_count count) in
      single.add (single.mul old (single.sub single.one weight)) (single.mul new weight)

  unfoldable pub loss_gain : Plc F → F
  loss_gain p =
      single.max
        (single.sub single.one
          (single.div (single.of_count (p.lost - p.ten_ms)) (single.of_count (p.ten_ms * 5))))
        single.zero

  -- `self.frozen[i]`, `self.history[i]`
  abbrev pub at : List F → ℕ → F
  at xs i = get_or xs i single.zero
