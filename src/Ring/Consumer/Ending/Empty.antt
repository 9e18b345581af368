-- ===== src/Ring/Consumer/Ending/Empty.antt =====
-- A finite burst of src/ring.rs without samples, from the producer's request to its end.
use rate_adjusting_pcm_ring.Common.{
  ℕ, suc, ◌+◌, ◌/◌, ◌^◌, ◌<◌, ◌≡◌, ◌≢◌, ◌⊎◌, refl, none, some, true, false, arith, length,
  if◌then◌else◌,
}
use rate_adjusting_pcm_ring.Float.{Single, Double, Widen}
use rate_adjusting_pcm_ring.Adapter.{Converter}
use rate_adjusting_pcm_ring.Adapter
use rate_adjusting_pcm_ring.Plc.State.{Plc}
use rate_adjusting_pcm_ring.Ring.State.{Ring, available}
use rate_adjusting_pcm_ring.Ring.Finish.{
  FinishStatus, finish_word, producer_finish, finish_pending, finish_status,
}
use rate_adjusting_pcm_ring.Ring.Finish.Protocol.{granted, word_token, pending_word}
use rate_adjusting_pcm_ring.Ring.Consumer.Finite.{note_finish}
use rate_adjusting_pcm_ring.Ring.Consumer.Render.{
  consumer_render_sample, render_from, consumer_render,
}
use rate_adjusting_pcm_ring.Ring.Consumer.Ending.{IsDraining, noted_draining, consumer_render_ends}

module _ {F R C : Type 0} ⦃single : Single F⦄ ⦃double : Double R⦄ (wide : Widen F R) where
  -- The burst of a ring from which nothing was taken, with nothing to take: its end is its start.
  noted_empty :
      (r : Ring F R C) (token : ℕ)
      → finish_pending r.shared ≡ true
      → r.shared.finish / 4 ≡ token
      → r.consumer.finite ≡ none
      → r.consumer.source_taken ≡ 0
      → available r.shared ≡ 0
      → r.consumer.mute_fault ≡ false
      → r.shared.mute_mailbox.read ≡ r.shared.mute_mailbox.written
      → (length r.consumer.plc_positions ≡ 0) ⊎ ((plc : Plc F) × (r.consumer.plc ≡ some plc))
      → IsDraining token (length r.consumer.plc_positions) r.consumer.converter (note_finish r)
  unfolding note_finish finish_pending
  noted_empty r token outstanding its none_yet untaken empty sound no_mutes lookahead =
      let start : r.consumer.source_taken + available r.shared ≡ 0 = omega arith in
      rw (outstanding, none_yet)
        (record {
          burst = record {
            token = r.shared.finish / 4;
            end = r.consumer.source_taken + available r.shared;
            plc_remaining = none;
          };
          current = refl;
          its_token = its;
          ended = rw start refl;
          left_over = refl;
          lookahead = lookahead;
          awake = refl;
          sound = sound;
          no_mutes = no_mutes;
          converter = refl;
        })

  -- The consumer learns of the burst in its next sample.
  sample_noted :
      (r : Ring F R C)
      → note_finish (note_finish r) ≡ note_finish r
      → consumer_render_sample wide r ≡ consumer_render_sample wide (note_finish r)
  unfolding consumer_render_sample
  sample_noted r e = rw e refl

  render_noted :
      (n : ℕ) (r : Ring F R C)
      → note_finish (note_finish r) ≡ note_finish r
      → consumer_render wide (suc n) r ≡ consumer_render wide (suc n) (note_finish r)
  unfolding consumer_render
  render_noted n r e = rw (render_from, sample_noted r e) refl

  -- A burst without samples ends: with tokens left and no burst outstanding, on a ring from which
  -- nothing was taken and that has nothing to take, whose consumer knows of no burst, without an unread
  -- mute or a mute fault, and with a concealment if there is a lookahead, the producer's request is granted a token, which is settled once the consumer has rendered the lookahead and one
  -- sample more. It then reads `Drained`, or `AdapterError` if the reset of the adapter fails, and no burst
  -- is outstanding.
  pub empty_burst_ends :
      (r : Ring F R C)
      → finish_pending r.shared ≡ false
      → r.shared.finish / 4 + 1 < 2 ^ 62
      → r.consumer.finite ≡ none
      → r.consumer.source_taken ≡ 0
      → available r.shared ≡ 0
      → r.consumer.mute_fault ≡ false
      → r.shared.mute_mailbox.read ≡ r.shared.mute_mailbox.written
      → (length r.consumer.plc_positions ≡ 0) ⊎ ((plc : Plc F) × (r.consumer.plc ≡ some plc))
      → let (out, s') = producer_finish r.shared in
        let s =
          (consumer_render wide
            (suc (length r.consumer.plc_positions))
            (record r { shared = s' })).1.shared in
        (out ≡ some (r.shared.finish / 4 + 1))
        × (finish_status s (r.shared.finish / 4 + 1)
            ≡ some (
                if (Adapter.reset r.consumer.converter).0
                then FinishStatus.drained
                else FinishStatus.adapter_error))
        × (finish_pending s ≡ false)
  empty_burst_ends r idle few none_yet untaken empty sound no_mutes lookahead =
      let token : ℕ = r.shared.finish / 4 + 1 in
      let r' : Ring F R C = record r {
        shared = record r.shared { finish = finish_word token FinishStatus.pending };
      } in
      let positive : token ≢ 0 = omega arith in
      let h : IsDraining token (length r.consumer.plc_positions) r.consumer.converter
          (note_finish r') =
        noted_empty r' token
          (unfold finish_pending in pending_word token FinishStatus.pending positive)
          (word_token token FinishStatus.pending) none_yet untaken (unfold available in empty) sound
          no_mutes lookahead in
      let (out, over) =
        consumer_render_ends wide token (length r.consumer.plc_positions) r.consumer.converter
          (note_finish r') h positive in
      rw
        (
          granted r.shared idle few,
          render_noted (length r.consumer.plc_positions) r' (
              noted_draining token (length r.consumer.plc_positions) r.consumer.converter
                (note_finish r') h),
        )
        (refl, out, over)
