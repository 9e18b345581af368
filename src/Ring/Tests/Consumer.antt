-- ===== src/Ring/Tests/Consumer.antt =====
-- The consumer's side and the finish protocol of src/ring.rs on concrete values.
use rate_adjusting_pcm_ring.Common.{
  ℕ, ◌+◌, ◌/◌, ◌≡◌, ◌≢◌, ◌≤◌, refl, List, [], ◌∷◌, none, some, true, false, not, ◌||◌, length,
  arith, min, max, if◌then◌else◌,
}
use rate_adjusting_pcm_ring.Adapter.{process}
use rate_adjusting_pcm_ring.Adapter.Bounds.{process_bounds}
use rate_adjusting_pcm_ring.Mute.Mailbox.Refine.{contents as queued}
use rate_adjusting_pcm_ring.Ring.State.{Ring}
use rate_adjusting_pcm_ring.Ring.State.Queue.{contents}
use rate_adjusting_pcm_ring.Ring.Finish.{
  FinishStatus, finish_pending, is_pending, producer_finish, finish_status,
}
use rate_adjusting_pcm_ring.Ring.Finish.Protocol.{
  producer_finish_lem, finish_status-consumer_reset, complete_finite_lem,
}
use rate_adjusting_pcm_ring.Ring.Producer.{producer_push}
use rate_adjusting_pcm_ring.Ring.Consumer.Invariant.{RingIsValid}
use rate_adjusting_pcm_ring.Ring.Consumer.Refill.{smooth, refill_output}
use rate_adjusting_pcm_ring.Ring.Consumer.Refilled.{refill_output-RingIsValid}
use rate_adjusting_pcm_ring.Ring.Consumer.Filled.{IsFilled, refill_output-IsFilled}
use rate_adjusting_pcm_ring.Ring.Consumer.Occupancy.{apart, smooth_lem}
use rate_adjusting_pcm_ring.Ring.Consumer.Cache.{reset}
use rate_adjusting_pcm_ring.Ring.Consumer.Finite.{complete_finite}
use rate_adjusting_pcm_ring.Ring.Consumer.Render.{consumer_render, consumer_reset}
use rate_adjusting_pcm_ring.Ring.Consumer.Drained.{consumer_reset_lem}
use rate_adjusting_pcm_ring.Ring.Consumer.Rendered.{consumer_render_lem}
use rate_adjusting_pcm_ring.Ring.Tests.{
  counted, wide_counted, widening, converter, fresh, fresh-IsFresh, shared, three, stocked,
  three_pushed, gated, gated-pending,
}

-- The consumer's end of a ring of three samples.
abbrev loaded : Ring ℕ ℕ ℕ
loaded = record { shared = stocked; consumer = fresh.consumer }

loaded-RingIsValid : RingIsValid loaded
loaded-RingIsValid = record {
  shared = three_pushed.1.valid;
  consumer = rw three_pushed.1.keeps.capacity fresh-IsFresh.valid.consumer;
}

consumer_render_lem_example :
    let (out, r') = consumer_render widening 4 loaded in
    RingIsValid r' × (length out.0 ≡ 4) × (out.1 ≤ 4)
consumer_render_lem_example = consumer_render_lem widening 4 loaded loaded-RingIsValid

refill_output-RingIsValid_example : RingIsValid (refill_output 320 loaded).1
refill_output-RingIsValid_example = refill_output-RingIsValid 320 loaded loaded-RingIsValid

refill_output-IsFilled_example : let (result, r') = refill_output 320 loaded in IsFilled result r'
refill_output-IsFilled_example = refill_output-IsFilled 320 loaded

consumer_reset_lem_example :
    let r' = (consumer_reset loaded).1 in
    RingIsValid r' × (contents r'.shared ≡ []) × (queued r'.shared.mute_mailbox ≡ [])
consumer_reset_lem_example = consumer_reset_lem loaded loaded-RingIsValid

idle : finish_pending shared ≡ false
unfolding finish_pending is_pending
idle = refl

producer_finish_lem_example :
    let (out, s') = producer_finish shared in
    (out ≡ some 1)
    × (s' ≡ record shared { finish = s'.finish })
    × (finish_status s' 1 ≡ some FinishStatus.pending)
    × ((other : ℕ) → other ≢ 1 → finish_status s' other ≡ none)
    × (producer_finish s' ≡ (none, s'))
    × ((input : List ℕ) → producer_push s' input ≡ (0, s'))
producer_finish_lem_example = producer_finish_lem shared idle (omega arith)

abbrev finishing : Ring ℕ ℕ ℕ
finishing = record { shared = gated; consumer = fresh.consumer }

finish_status-consumer_reset_example :
    let s = (consumer_reset finishing).1.shared in
    (finish_status s (gated.finish / 4) ≡ some FinishStatus.cancelled) × (finish_pending s ≡ false)
finish_status-consumer_reset_example = finish_status-consumer_reset finishing gated-pending

complete_finite_lem_example :
    let failed = not (reset finishing.consumer).0 || true in
    let (out, r') = complete_finite finishing 1 true in
    (finish_status r'.shared 1
      ≡ some (if failed then FinishStatus.adapter_error else FinishStatus.drained))
    × (finish_pending r'.shared ≡ false)
    × (out ≡ (0, false, failed))
    × (failed ≡ true → r'.shared.read ≡ r'.shared.written)
complete_finite_lem_example = complete_finite_lem finishing 1 true (omega arith)

smooth_lem_example :
    let next = smooth 1000 2000 in
    (min 1000 2000 ≤ next)
    × (next ≤ max 1000 2000)
    × (apart next 1000 ≡ apart 2000 1000 / 128)
    × (apart next 2000 + apart next 1000 ≡ apart 2000 1000)
smooth_lem_example = smooth_lem 1000 2000 (omega arith)

process_bounds_example :
    let (out, output', c') = process converter three (0 ∷ 0 ∷ 0 ∷ []) 2 1 in
    (length output' ≡ 3)
    × ((used generated : ℕ) → out ≡ some (used, generated) → (used ≤ 3) × (generated ≤ 2))
process_bounds_example = process_bounds converter three (0 ∷ 0 ∷ 0 ∷ []) 2 1 (omega arith)
