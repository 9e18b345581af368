-- ===== src/Ring/Consumer/Input.antt =====
-- The input half of `refill_output` of src/ring.rs: moving source samples from the ring into the
-- converter's input workspace, with their stamps and gaps.
use rate_adjusting_pcm_ring.Common.{
  ℕ, zero, suc, ◌+◌, min, List, [], ◌∷◌, ◌++◌, Option, none, some, Bool, true, false, ◌&&◌, ◌||◌,
  length, set, copy_prefix, leb, ◌==◌, if◌then◌else◌, sat_add,
}
use mathlib.Core.Option
use rate_adjusting_pcm_ring.Common.Int.{ℤ, pos, ◌+ℤ◌, ◌-ℤ◌, eqb_ℤ}
use rate_adjusting_pcm_ring.Float.{Single}
use rate_adjusting_pcm_ring.Mute.Types.{Stamp}
use rate_adjusting_pcm_ring.Ring.Settings.{converter_quantum}
use rate_adjusting_pcm_ring.Ring.State.{
  Ring, Shared, ConsumerState, SourceSample, GapSpan, RefillResult, consumer_take_source_sample,
}
use rate_adjusting_pcm_ring.Ring.Consumer.Monad.{continue, stop, Step, ◌>>=◌}

abbrev pub is_some {ℓ} : {A : Type ℓ} → Option A → Bool
is_some none = false
is_some (some a) = true

-- The last span, if it ends at the position, grows by one: `none` where there is no such span.
unfoldable pub extend_last : ℕ → List GapSpan → Option (List GapSpan)
extend_last taken [] = none
extend_last taken (x ∷ []) =
    if x.end == taken then some (record x { end = x.end + 1 } ∷ []) else none
extend_last taken (x ∷ y ∷ ys) = Option.map (λ r. x ∷ r) (extend_last taken (y ∷ ys))

-- A missing sample at the position; `none` where the allocation is used up.
unfoldable pub note_gap : ℕ → ℕ → List GapSpan → Option (List GapSpan)
unfolding extend_last
note_gap capacity taken gaps = elim (extend_last taken gaps) [
  | some grown ↦ some grown
  | none ↦
      if length gaps == capacity
      then none
      else some (gaps ++ (record { start = taken; end = taken + 1 } ∷ []))
]

-- `source_base.get_or_insert(..)`
abbrev pub base_of : Option (ℕ × ℤ) → Stamp → ℕ → ℕ × ℤ
base_of none stamp taken = (stamp.generation, pos stamp.source -ℤ pos taken)
base_of (some base) stamp taken = base

module _ {F R C : Type 0} where
  -- A stamp fixes the base, or must agree with it; `false` is the mute fault.
  unfoldable pub accept_stamp : ConsumerState F R C → Option Stamp → Bool × ConsumerState F R C
  unfolding ◌+ℤ◌ ◌-ℤ◌
  accept_stamp c none = (true, c)
  accept_stamp c (some stamp) =
      let base = base_of c.source_base stamp c.source_taken in
      let agrees =
        base.0 == stamp.generation && eqb_ℤ (base.1 +ℤ pos c.source_taken) (pos stamp.source) in
      (
        agrees,
        record c { source_base = some base; mute_fault = if agrees then c.mute_fault else true },
      )

  -- The gap list after a sample, with `none` for a refused marker.
  unfoldable pub gaps_after : ConsumerState F R C → Bool → Option (List GapSpan)
  unfolding note_gap
  gaps_after c missing =
      if missing then note_gap c.gap_capacity c.source_taken c.gaps else some c.gaps

  -- The sample goes behind the pending input.
  unfoldable pub append_input : ConsumerState F R C → F → List GapSpan → ConsumerState F R C
  append_input c pcm gaps = record c {
    gaps = gaps;
    source_taken = c.source_taken + 1;
    input = set c.input (c.input_offset + c.input_pending) pcm;
    input_pending = c.input_pending + 1;
  }

  -- One round of the input loop behind a sample that was taken.
  unfoldable pub admit : SourceSample F → Step (Ring F R C) (Unit {0})
  unfolding accept_stamp gaps_after append_input
  admit sample r =
      let (agrees, c) = accept_stamp r.consumer sample.stamp in
      if agrees
      then elim (gaps_after c sample.missing) [
        | none ↦ (stop RefillResult.adapter_error, record r { consumer = c })
        | some gaps ↦ (continue tt, record r { consumer = append_input c sample.pcm gaps })
      ]
      else (stop RefillResult.adapter_error, record r { consumer = c })

  -- `make_input_space`
  unfoldable pub make_input_space : ConsumerState F R C → ℕ → ℕ → ConsumerState F R C
  make_input_space c additional capacity =
      if c.input_offset == 0
        || leb (sat_add (sat_add c.input_offset c.input_pending) additional) capacity
      then c
      else record c {
        input = copy_prefix c.input_pending c.input_offset c.input c.input;
        input_offset = 0;
      }

  abbrev pub quantum : Ring F R C → ℕ
  quantum r = min r.shared.capacity converter_quantum

  -- `desired_input`
  unfoldable pub desired_input : Ring F R C → ℕ
  desired_input r =
      if r.consumer.zero_progress
      then min (sat_add r.consumer.input_pending (quantum r)) r.shared.capacity
      else quantum r

module _ {F R C : Type 0} ⦃single : Single F⦄ where
  -- A round of the input loop, at the padding flag, the sample that the ring gave and what that left,
  -- and the rounds behind it.
  unfoldable pub fill_round :
      Bool
      → Option (SourceSample F)
      → Shared F
      → Step (Ring F R C) (Unit {0})
      → Step (Ring F R C) (Unit {0})
  unfolding admit
  fill_round true taken shared rest r = (continue tt, r)
  fill_round false none shared rest r = (continue tt, r)
  fill_round false (some sample) shared rest r =
      (admit sample >>= λ _. rest) (record r { shared = shared })

  -- The input loop, with the rounds that are left: each adds one pending sample.
  unfoldable pub fill_from : ℕ → Step (Ring F R C) (Unit {0})
  unfolding fill_round
  fill_from zero r = (continue tt, r)
  fill_from (suc n) r =
      let (taken, shared) = consumer_take_source_sample r.shared in
      fill_round r.consumer.input_padding taken shared (fill_from n) r
