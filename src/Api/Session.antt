-- ===== src/Api/Session.antt =====
-- A session on a ring: the calls of src/lib.rs that both endpoints make on one live handle, in any order.
pub mod Live
pub mod Refused
use rate_adjusting_pcm_ring.Common.{
  ℕ, ◌≡◌, ◌≢◌, ◌≤◌, refl, List, [], ◌∷◌, Option, none, some, Bool, true, false, if◌then◌else◌, leb,
  length, not,
}
use rate_adjusting_pcm_ring.Common.Int.{ℤ}
use rate_adjusting_pcm_ring.Float.{Single, Double, Widen}
use rate_adjusting_pcm_ring.Mute.Types.{Span}
use rate_adjusting_pcm_ring.Ring.State.{Ring, Shared}
use rate_adjusting_pcm_ring.Ring.State.Queue.{IsValid}
use rate_adjusting_pcm_ring.Ring.Producer
use rate_adjusting_pcm_ring.Ring.Producer.Preserved.{
  Holds, producer_mute-Holds, producer_push_sample-Holds, producer_push-Holds, producer_gap-Holds,
  producer_push_tagged-Holds,
}
use rate_adjusting_pcm_ring.Ring.Finish
use rate_adjusting_pcm_ring.Ring.Consumer.Invariant.{RingIsValid}
use rate_adjusting_pcm_ring.Ring.Consumer.Render.{
  consumer_render_sample, consumer_render, consumer_reset,
}
use rate_adjusting_pcm_ring.Ring.Consumer.Drained.{consumer_reset_lem}
use rate_adjusting_pcm_ring.Ring.Consumer.Rendered.{
  consumer_render_lem, consumer_render_sample-RingIsValid,
}
use rate_adjusting_pcm_ring.Api.Checks.{
  Checked, ok, fail, ◌>>=◌, ◌>>◌, require, non_null, checked_input, checked_spans, answer,
}
use rate_adjusting_pcm_ring.Api.Producer.{
  update, report, to_u32, ring_producer_mute, ring_producer_finish, ring_producer_push_sample,
  ring_producer_push, ring_producer_gap, ring_producer_push_tagged,
}
use rate_adjusting_pcm_ring.Api.Consumer.{
  code_of_fault, written_to, ring_consumer_reset, ring_consumer_render_sample, ring_consumer_render,
}

-- A call with its arguments, null pointers included. What only reads the ring is left out.
pub data Call (F : Type 0) : Type 0 where
  push_sample : F → Option Bool → Call F
  push : Option (List F) → ℕ → Option ℕ → Call F
  gap : ℕ → Option ℕ → Call F
  push_tagged : Option (List F) → ℕ → ℕ → ℕ → Option (List Span) → ℕ → Option ℕ → Call F
  mute : ℕ → Option (List Span) → ℕ → Option ℕ → Call F
  finish : Option ℕ → Call F
  render_sample : Option F → Option Bool → Call F
  render : Option (List F) → ℕ → Option ℕ → Call F
  reset : Call F

module _ {F R C : Type 0} ⦃single : Single F⦄ ⦃double : Double R⦄ (wide : Widen F R) where
  -- What a call leaves behind the handle.
  unfoldable pub perform : Call F → Option (Ring F R C) → Option (Ring F R C)
  unfolding ring_producer_push_sample ring_producer_push ring_producer_gap ring_producer_push_tagged
      ring_producer_mute ring_producer_finish ring_consumer_render_sample ring_consumer_render
      ring_consumer_reset
  perform (push_sample sample accepted) ring = (ring_producer_push_sample ring sample accepted).2
  perform (push input samples accepted) ring = (ring_producer_push ring input samples accepted).2
  perform (gap samples accepted) ring = (ring_producer_gap ring samples accepted).2
  perform (push_tagged input samples generation start spans count accepted) ring =
      (ring_producer_push_tagged ring input samples generation start spans count accepted).2
  perform (mute generation spans count accepted) ring =
      (ring_producer_mute ring generation spans count accepted).2
  perform (finish token) ring = (ring_producer_finish ring token).2
  perform (render_sample sample real) ring = (ring_consumer_render_sample wide ring sample real).2
  perform (render output samples real) ring = (ring_consumer_render wide ring output samples real).2
  perform reset ring = (ring_consumer_reset ring).2

  -- Its result code.
  unfoldable pub call_code : Call F → Option (Ring F R C) → ℤ
  unfolding ring_producer_push_sample ring_producer_push ring_producer_gap ring_producer_push_tagged
      ring_producer_mute ring_producer_finish ring_consumer_render_sample ring_consumer_render
      ring_consumer_reset
  call_code (push_sample sample accepted) ring = (ring_producer_push_sample ring sample accepted).0
  call_code (push input samples accepted) ring = (ring_producer_push ring input samples accepted).0
  call_code (gap samples accepted) ring = (ring_producer_gap ring samples accepted).0
  call_code (push_tagged input samples generation start spans count accepted) ring =
      (ring_producer_push_tagged ring input samples generation start spans count accepted).0
  call_code (mute generation spans count accepted) ring =
      (ring_producer_mute ring generation spans count accepted).0
  call_code (finish token) ring = (ring_producer_finish ring token).0
  call_code (render_sample sample real) ring = (ring_consumer_render_sample wide ring sample real).0
  call_code (render output samples real) ring =
      (ring_consumer_render wide ring output samples real).0
  call_code reset ring = (ring_consumer_reset ring).0

  -- A session: calls, the first first.
  unfoldable pub session : List (Call F) → Option (Ring F R C) → Option (Ring F R C)
  unfolding perform
  session [] ring = ring
  session (c ∷ cs) ring = session cs (perform c ring)
