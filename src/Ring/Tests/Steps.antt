-- ===== src/Ring/Tests/Steps.antt =====
-- Interleavings, the end of a finite burst and the draining of mutes of src/ring.rs on concrete values.
use rate_adjusting_pcm_ring.Common.{
  ℕ, suc, ◌*◌, ◌≡◌, ◌≢◌, refl, List, [], ◌∷◌, ◌++◌, some, false, ◌||◌, length, inr, arith,
  if◌then◌else◌,
}
use rate_adjusting_pcm_ring.Mute.Types.{Position, max_spans}
use rate_adjusting_pcm_ring.Common.Cursor.{distance, advance}
use rate_adjusting_pcm_ring.Mute.Mailbox.{publish, pop, new as new_mailbox}
use rate_adjusting_pcm_ring.Mute.Mailbox.Refine.{contents as queued}
use rate_adjusting_pcm_ring.Mute.Mailbox.Proper.{IsSound, publish-IsSound}
use rate_adjusting_pcm_ring.Mute.History.{muted, insert, new as new_history}
use rate_adjusting_pcm_ring.Mute.History.Coverage.{meets_any}
use rate_adjusting_pcm_ring.Adapter
use rate_adjusting_pcm_ring.Plc.State.{new}
use rate_adjusting_pcm_ring.Ring.State.{Ring, cursor_distance, available}
use rate_adjusting_pcm_ring.Ring.State.Queue.{IsValid, contents}
use rate_adjusting_pcm_ring.Ring.Finish.{
  FinishStatus, finish_pending, producer_finish, finish_status,
}
use rate_adjusting_pcm_ring.Ring.Interleaving.{Turn, produce, consume, run, start}
use rate_adjusting_pcm_ring.Ring.Interleaving.Order.{run_lem, run-IsExclusive}
use rate_adjusting_pcm_ring.Ring.Interleaving.Slots.{
  IsWriting, IsReading, producer_slot, consumer_slot,
}
use rate_adjusting_pcm_ring.Ring.Consumer.Finite.{drain_mutes}
use rate_adjusting_pcm_ring.Plc.State.{Plc, lookahead}
use rate_adjusting_pcm_ring.Ring.State.{Finite}
use rate_adjusting_pcm_ring.Ring.Consumer.Render.{consumer_render}
use rate_adjusting_pcm_ring.Ring.Consumer.Ending.{IsDraining, consumer_render_ends}
use rate_adjusting_pcm_ring.Ring.Consumer.Ending.Empty.{empty_burst_ends}
use rate_adjusting_pcm_ring.Ring.Consumer.Muting.{muted-drain_mutes}
use rate_adjusting_pcm_ring.Ring.Tests.{
  counted, wide_counted, widening, converter, fresh, fresh-IsFresh, shared, shared-IsValid, sample,
  one_span, credit,
}

-- The producer publishes one sample and claims a slot for a second while the consumer has found the first.
abbrev turns : List (Turn ℕ)
turns = produce sample ∷ produce sample ∷ produce sample ∷ consume ∷ produce sample ∷ []

run_lem_example :
    IsValid (run turns (start shared)).shared
    × (contents shared ++ (run turns (start shared)).sent
        ≡ (run turns (start shared)).taken ++ contents (run turns (start shared)).shared)
run_lem_example = run_lem shared turns shared-IsValid

writes : IsWriting (run turns (start shared)).producer
unfolding run cursor_distance distance advance
writes = tt

reads : IsReading (run turns (start shared)).consumer
unfolding run cursor_distance distance advance
reads = tt

run-IsExclusive_example :
    producer_slot (run turns (start shared)).shared
    ≢ consumer_slot (run turns (start shared)).shared
run-IsExclusive_example = run-IsExclusive shared turns shared-IsValid writes reads

-- A burst past its end with two samples left.
abbrev draining : Ring ℕ ℕ ℕ
draining = record {
  shared = record shared { finish = 4 };
  consumer = record fresh.consumer {
    finite = some (record { token = 1; end = 0; plc_remaining = some 2 });
  };
}

draining-IsDraining : IsDraining 1 2 converter draining
unfolding new_mailbox
draining-IsDraining = record {
  burst = record { token = 1; end = 0; plc_remaining = some 2 };
  current = refl;
  its_token = refl;
  ended = refl;
  left_over = refl;
  lookahead = inr (new 8000, refl);
  awake = refl;
  sound = refl;
  no_mutes = refl;
  converter = refl;
}

consumer_render_ends_example :
    let s = (consumer_render widening 3 draining).1.shared in
    (finish_status s 1
      ≡ some (
          if (Adapter.reset converter).0 then FinishStatus.drained else FinishStatus.adapter_error))
    × (finish_pending s ≡ false)
consumer_render_ends_example =
    consumer_render_ends widening 1 2 converter draining draining-IsDraining (omega arith)

nothing_outstanding : finish_pending shared ≡ false
unfolding finish_pending
nothing_outstanding = refl

nothing_available : available shared ≡ 0
unfolding available distance new_mailbox
nothing_available = refl

empty_burst_ends_example :
    let (out, s') = producer_finish fresh.shared in
    let s =
      (consumer_render widening
        (suc (length fresh.consumer.plc_positions))
        (record fresh { shared = s' })).1.shared in
    (out ≡ some 1)
    × (finish_status s 1
        ≡ some (
            if (Adapter.reset fresh.consumer.converter).0
            then FinishStatus.drained
            else FinishStatus.adapter_error))
    × (finish_pending s ≡ false)
unfolding new_mailbox
empty_burst_ends_example =
    empty_burst_ends widening fresh nothing_outstanding (omega arith) refl refl nothing_available
      refl refl (inr (new 8000, refl))

-- A ring with an unread mute.
abbrev mailed : Ring ℕ ℕ ℕ
mailed = record fresh {
  shared = record shared { mute_mailbox = publish shared.mute_mailbox 1 one_span 103 };
}

mailed-IsSound : IsSound mailed.shared.mute_mailbox
mailed-IsSound = publish-IsSound shared.mute_mailbox 1 one_span 103 shared-IsValid.mailbox credit

none_refused : (drain_mutes (max_spans * 2) mailed).consumer.mute_fault ≡ false
unfolding drain_mutes publish new_mailbox distance advance pop insert new_history
none_refused = refl

abbrev position : Position
position = record { generation = 1; low = 102; high = 103 }

muted-drain_mutes_example :
    let r' = drain_mutes (max_spans * 2) mailed in
    (queued r'.shared.mute_mailbox ≡ [])
    × (muted r'.consumer.mute_history (some position) ≡ (
        meets_any position (queued mailed.shared.mute_mailbox)
        || muted mailed.consumer.mute_history (some position)))
muted-drain_mutes_example =
    muted-drain_mutes mailed position mailed-IsSound fresh-IsFresh.valid.consumer.history
      (omega arith) none_refused
