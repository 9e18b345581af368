-- ===== src/Api/Tokens.antt =====
-- The token that `ring_producer_finish` of src/lib.rs hands out, and what `ring_finish_status` reads of it.
use rate_adjusting_pcm_ring.Common.{
  ℕ, ◌+◌, ◌/◌, ◌<◌, ◌^◌, ◌≡◌, ◌≢◌, refl, arith, Option, none, some, true, false,
}
use rate_adjusting_pcm_ring.Float.{Single, Double}
use rate_adjusting_pcm_ring.Ring.State.{Ring, Shared}
use rate_adjusting_pcm_ring.Ring.Finish.{FinishStatus, finish_word, finish_pending, finish_status}
use rate_adjusting_pcm_ring.Ring.Finish.Protocol.{
  granted, finish_status_word, word_token, pending_word, finish_status-consumer_reset,
}
use rate_adjusting_pcm_ring.Ring.Consumer.Render.{consumer_reset}
use rate_adjusting_pcm_ring.Api.Codes.{result_ok, result_invalid_argument}
use rate_adjusting_pcm_ring.Api.Producer.{ring_producer_finish}
use rate_adjusting_pcm_ring.Api.Consumer.{ring_consumer_reset}
use rate_adjusting_pcm_ring.Api.Query.{ring_finish_status, reply_status}

module _ {F R C : Type 0} where
  -- A call of `ring_finish_status` on the handle reads what the ring knows of the token.
  reads :
      (r : Ring F R C) (token old : ℕ) (status : Option FinishStatus)
      → finish_status r.shared token ≡ status
      → ring_finish_status (some r) token (some old) ≡ reply_status old status
  unfolding ring_finish_status
  reads r token old status e = rw e refl

module _ {F R C : Type 0} ⦃single : Single F⦄ ⦃double : Double R⦄ where
  cancelled :
      (r : Ring F R C) (token old : ℕ)
      → finish_pending r.shared ≡ true
      → r.shared.finish / 4 ≡ token
      → ring_finish_status (ring_consumer_reset (some r)).2 token (some old) ≡ (result_ok, some 2)
  unfolding ring_consumer_reset
  cancelled r token old outstanding e = rw (← e) (
      reads (consumer_reset r).1 (r.shared.finish / 4) old (some FinishStatus.cancelled)
        (finish_status-consumer_reset r outstanding).0)

  -- With no burst outstanding and tokens left, `ring_producer_finish` succeeds and writes a token. The
  -- status of that token then reads 0 (pending), and after a `ring_consumer_reset` it reads 2 (cancelled);
  -- a query of any other token is refused before the reset, and leaves the out pointer alone.
  pub ring_finish_roundtrip :
      (r : Ring F R C) (old unread other : ℕ)
      → finish_pending r.shared ≡ false
      → r.shared.finish / 4 + 1 < 2 ^ 62
      → other ≢ r.shared.finish / 4 + 1
      → let token = r.shared.finish / 4 + 1 in
        let (code, written, handle) = ring_producer_finish (some r) (some old) in
        (code ≡ result_ok)
        × (written ≡ some token)
        × (ring_finish_status handle token (some unread) ≡ (result_ok, some 0))
        × (ring_finish_status handle other (some unread) ≡ (result_invalid_argument, some unread))
        × (ring_finish_status (ring_consumer_reset handle).2 token (some unread)
            ≡ (result_ok, some 2))
  unfolding ring_producer_finish
  ring_finish_roundtrip r old unread other idle few unlike =
      let token : ℕ = r.shared.finish / 4 + 1 in
      let s' : Shared F = record r.shared { finish = finish_word token FinishStatus.pending } in
      let r' : Ring F R C = record r { shared = s' } in
      let positive : token ≢ 0 = omega arith in
      let (queried, others) = finish_status_word s' token FinishStatus.pending positive refl in
      rw (granted r.shared idle few) (
        refl,
        refl,
        reads r' token unread (some FinishStatus.pending) queried,
        reads r' other unread none (others other unlike),
        cancelled r' token unread
            (unfold finish_pending in pending_word token FinishStatus.pending positive)
            (word_token token FinishStatus.pending),
      )
