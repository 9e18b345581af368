-- ===== src/Api/Producer.antt =====
-- The producer's functions of src/lib.rs. A call takes the handle's ring, null or not, and what is at its
-- out pointer, and returns its code with both as they are left.
use rate_adjusting_pcm_ring.Common.{ℕ, ◌%◌, ◌^◌, List, Option, none, some, Bool, leb}
use rate_adjusting_pcm_ring.Common.Int.{ℤ}
use rate_adjusting_pcm_ring.Float.{Single}
use rate_adjusting_pcm_ring.Mute.Types.{Span}
use rate_adjusting_pcm_ring.Ring.State.{Ring, Shared}
use rate_adjusting_pcm_ring.Ring.Finish
use rate_adjusting_pcm_ring.Ring.Producer
use rate_adjusting_pcm_ring.Api.Codes.{result_ok, result_invalid_argument}
use rate_adjusting_pcm_ring.Api.Checks.{
  ok, ◌>>=◌, ◌>>◌, require, non_null, checked_input, checked_spans, answer,
}

module _ {F : Type 0} where
  -- `count as u32`
  abbrev pub to_u32 : Option ℕ × Shared F → Option ℕ × Shared F
  to_u32 (none, s) = (none, s)
  to_u32 (some n, s) = (some (n % 2 ^ 32), s)

module _ {F R C : Type 0} where
  -- The ring behind a handle, with the shared state that the producer leaves.
  abbrev pub update : Ring F R C → Shared F → Option (Ring F R C)
  update r s = some (record r { shared = s })

  -- `Err(())` leaves the out pointer alone.
  abbrev pub report :
      {O : Type 0} → Ring F R C → O → Option O × Shared F → ℤ × Option O × Option (Ring F R C)
  report r old (none, s) = (result_invalid_argument, some old, update r s)
  report r old (some n, s) = (result_ok, some n, update r s)

  unfoldable pub ring_producer_mute :
      Option (Ring F R C)
      → ℕ
      → Option (List Span)
      → ℕ
      → Option ℕ
      → ℤ × Option ℕ × Option (Ring F R C)
  unfolding checked_spans Producer.producer_mute
  ring_producer_mute ring generation spans count accepted = answer accepted ring (do
    old ← non_null accepted
    r ← non_null ring
    xs ← checked_spans spans count
    ok (report r old (to_u32 (Producer.producer_mute r.shared generation xs))))

  unfoldable pub ring_producer_finish :
      Option (Ring F R C) → Option ℕ → ℤ × Option ℕ × Option (Ring F R C)
  unfolding Finish.producer_finish
  ring_producer_finish ring token = answer token ring (do
    r ← non_null ring
    old ← non_null token
    ok (report r old (Finish.producer_finish r.shared)))

module _ {F R C : Type 0} ⦃single : Single F⦄ where
  unfoldable pub ring_producer_push_sample :
      Option (Ring F R C) → F → Option Bool → ℤ × Option Bool × Option (Ring F R C)
  unfolding Producer.producer_push_sample
  ring_producer_push_sample ring sample accepted = answer accepted ring (do
    old ← non_null accepted
    r ← non_null ring
    let (published, s) = Producer.producer_push_sample r.shared sample
    ok (result_ok, some published, update r s))

  unfoldable pub ring_producer_push :
      Option (Ring F R C) → Option (List F) → ℕ → Option ℕ → ℤ × Option ℕ × Option (Ring F R C)
  unfolding checked_input Producer.producer_push
  ring_producer_push ring input samples accepted = answer accepted ring (do
    old ← non_null accepted
    r ← non_null ring
    require (leb samples r.shared.max_producer)
    xs ← checked_input input samples
    let (n, s) = Producer.producer_push r.shared xs
    ok (result_ok, some n, update r s))

  unfoldable pub ring_producer_gap :
      Option (Ring F R C) → ℕ → Option ℕ → ℤ × Option ℕ × Option (Ring F R C)
  unfolding Producer.producer_gap
  ring_producer_gap ring samples accepted = answer accepted ring (do
    old ← non_null accepted
    r ← non_null ring
    require (leb samples r.shared.max_producer)
    let (n, s) = Producer.producer_gap r.shared samples
    ok (result_ok, some n, update r s))

  unfoldable pub ring_producer_push_tagged :
      Option (Ring F R C)
      → Option (List F)
      → ℕ
      → ℕ
      → ℕ
      → Option (List Span)
      → ℕ
      → Option ℕ
      → ℤ × Option ℕ × Option (Ring F R C)
  unfolding checked_input checked_spans Producer.producer_push_tagged
  ring_producer_push_tagged ring input samples generation source_start spans count accepted =
      answer accepted ring (do
        old ← non_null accepted
        r ← non_null ring
        require (leb samples r.shared.max_producer)
        xs ← checked_input input samples
        ys ← checked_spans spans count
        ok (report r old (Producer.producer_push_tagged r.shared xs generation source_start ys)))
