-- ===== src/Api/Session/Live.antt =====
-- Whatever the two endpoints call through src/lib.rs, the ring behind the handle stays valid.
use rate_adjusting_pcm_ring.Common.{ℕ, refl, List, [], ◌∷◌, Option, none, some, if◌then◌else◌, leb}
use rate_adjusting_pcm_ring.Common.Int.{ℤ}
use rate_adjusting_pcm_ring.Float.{Single, Double, Widen}
use rate_adjusting_pcm_ring.Ring.State.{Ring, Shared}
use rate_adjusting_pcm_ring.Ring.Producer.Preserved.{
  Holds, producer_mute-Holds, producer_push_sample-Holds, producer_push-Holds, producer_gap-Holds,
  producer_push_tagged-Holds,
}
use rate_adjusting_pcm_ring.Ring.Finish
use rate_adjusting_pcm_ring.Ring.Consumer.Invariant.{RingIsValid}
use rate_adjusting_pcm_ring.Ring.Consumer.Drained.{consumer_reset_lem}
use rate_adjusting_pcm_ring.Ring.Consumer.Rendered.{
  consumer_render_lem, consumer_render_sample-RingIsValid,
}
use rate_adjusting_pcm_ring.Api.Checks.{
  Checked, ok, fail, ◌>>=◌, require, non_null, checked_input, checked_spans, answer,
}
use rate_adjusting_pcm_ring.Api.Producer.{update, report, to_u32}
use rate_adjusting_pcm_ring.Ring.Producer.Preserved.{either-Holds}
use rate_adjusting_pcm_ring.Common.{ltb, ◌+◌, ◌/◌, ◌^◌}
use rate_adjusting_pcm_ring.Api.Session.{
  Call, push_sample, push, gap, push_tagged, mute, finish, render_sample, render, reset, perform,
  session,
}

module _ {F : Type 0} {k : ℕ} ⦃single : Single F⦄ where
  finish-Holds : (s : Shared F) (word : ℕ) → Holds k s → Holds k (record s { finish = word })
  finish-Holds s word h = let v = h.valid in record { valid = assumption; capacity = h.capacity }

  producer_finish-Holds : (s : Shared F) → Holds k s → Holds k (Finish.producer_finish s).1
  unfolding Finish.producer_finish
  producer_finish-Holds s h =
      let token : ℕ = s.finish / 4 + 1 in
      let word : ℕ = Finish.finish_word token Finish.FinishStatus.pending in
      either-Holds (Finish.is_pending s.finish) (none, s)
        (if ltb token (2 ^ 62) then (some token, record s { finish = word }) else (none, s))
        (λ _. h)
        (λ _.
          either-Holds (ltb token (2 ^ 62)) (some token, record s { finish = word }) (none, s)
            (λ _. finish-Holds s word h) (λ _. h))

module _ {F : Type 0} {k : ℕ} where
  to_u32-Holds : (q : Option ℕ × Shared F) → Holds k q.1 → Holds k (to_u32 q).1
  to_u32-Holds (none, s) h = h
  to_u32-Holds (some n, s) h = h

module _ {F R C : Type 0} ⦃single : Single F⦄ where
  -- The handle still has a ring, and a valid one.
  abbrev pub IsLive : Option (Ring F R C) → Type 0
  IsLive none = ⊥
  IsLive (some r) = RingIsValid r

  abbrev Answered : {O : Type 0} → Checked (ℤ × O × Option (Ring F R C)) → Type 0
  Answered (ok a) = IsLive a.2
  Answered (fail code) = Unit {0}

  answer-IsLive :
      {O : Type 0} (out : O) (r : Ring F R C) (m : Checked (ℤ × O × Option (Ring F R C)))
      → RingIsValid r
      → Answered m
      → IsLive (answer out (some r) m).2
  answer-IsLive out r (ok a) v h = h
  answer-IsLive out r (fail code) v h = v

  >>=-Answered :
      {A O : Type 0} (m : Checked A) (f : A → Checked (ℤ × O × Option (Ring F R C)))
      → ((a : A) → Answered (f a))
      → Answered (m >>= f)
  >>=-Answered (ok a) f h = h a
  >>=-Answered (fail code) f h = tt

  update-IsLive :
      (r : Ring F R C) (s : Shared F)
      → RingIsValid r
      → Holds r.shared.capacity s
      → IsLive (update r s)
  update-IsLive r s v h = record { shared = h.valid; consumer = rw h.capacity v.consumer }

  report-IsLive :
      {O : Type 0} (r : Ring F R C) (old : O) (q : Option O × Shared F)
      → RingIsValid r
      → Holds r.shared.capacity q.1
      → IsLive (report r old q).2
  report-IsLive r old (none, s) v h = update-IsLive r s v h
  report-IsLive r old (some n, s) v h = update-IsLive r s v h

  of_valid : (r : Ring F R C) → RingIsValid r → Holds r.shared.capacity r.shared
  of_valid r v = record { valid = v.shared; capacity = refl }

module _ {F R C : Type 0} ⦃single : Single F⦄ ⦃double : Double R⦄ (wide : Widen F R) where
  perform-IsLive : (c : Call F) (r : Ring F R C) → RingIsValid r → IsLive (perform wide c (some r))
  unfolding perform
  perform-IsLive (push_sample sample accepted) r v = answer-IsLive accepted r _ v (
      >>=-Answered (non_null accepted) _
        λ old. update-IsLive r _ v (producer_push_sample-Holds r.shared sample (of_valid r v)))
  perform-IsLive (push input samples accepted) r v = answer-IsLive accepted r _ v (
      >>=-Answered (non_null accepted) _ λ old.
        >>=-Answered (require (leb samples r.shared.max_producer)) _ λ _.
          >>=-Answered (checked_input input samples) _
            λ xs. update-IsLive r _ v (producer_push-Holds r.shared xs (of_valid r v)))
  perform-IsLive (gap samples accepted) r v = answer-IsLive accepted r _ v (
      >>=-Answered (non_null accepted) _ λ old.
        >>=-Answered (require (leb samples r.shared.max_producer)) _
          λ _. update-IsLive r _ v (producer_gap-Holds r.shared samples (of_valid r v)))
  perform-IsLive (push_tagged input samples generation start spans count accepted) r v =
      answer-IsLive accepted r _ v (
        >>=-Answered (non_null accepted) _ λ old.
          >>=-Answered (require (leb samples r.shared.max_producer)) _ λ _.
            >>=-Answered (checked_input input samples) _ λ xs.
              >>=-Answered (checked_spans spans count) _ λ ys.
                report-IsLive r old _ v
                  (producer_push_tagged-Holds r.shared xs generation start ys (of_valid r v)))
  perform-IsLive (mute generation spans count accepted) r v = answer-IsLive accepted r _ v (
      >>=-Answered (non_null accepted) _ λ old. >>=-Answered (checked_spans spans count) _ λ ys.
        report-IsLive r old _ v
          (to_u32-Holds _ (producer_mute-Holds r.shared generation ys (of_valid r v))))
  perform-IsLive (finish token) r v = answer-IsLive token r _ v (
      >>=-Answered (non_null token) _
        λ old. report-IsLive r old _ v (producer_finish-Holds r.shared (of_valid r v)))
  perform-IsLive (render_sample sample real) r v =
      answer-IsLive (sample, real) r _ v
        (>>=-Answered (non_null sample) _ λ old_sample.
          >>=-Answered (non_null real) _ λ old_real. consumer_render_sample-RingIsValid wide r v)
  perform-IsLive (render output samples real) r v =
      answer-IsLive (output, real) r _ v
        (>>=-Answered (non_null real) _ λ old.
          >>=-Answered (require (leb samples r.shared.max_output)) _ λ _.
            >>=-Answered (checked_input output samples) _
              λ block. (consumer_render_lem wide samples r v).0)
  perform-IsLive reset r v = (consumer_reset_lem r v).0

  -- On a valid ring any sequence of calls of the two endpoints, whatever their arguments, leaves a valid
  -- ring behind the handle: cursors, workspaces, cache and the slot of the lookahead are in range, there is a
  -- concealment exactly if there is a lookahead, and it is sound, and mailbox and mute union are valid.
  pub session-IsLive :
      (calls : List (Call F)) (r : Ring F R C)
      → RingIsValid r
      → IsLive (session wide calls (some r))
  unfolding session
  session-IsLive [] r v = v
  session-IsLive (c ∷ cs) r v =
      through (perform wide c (some r)) (perform-IsLive c r v) (session-IsLive cs)
    where
      through :
          (h : Option (Ring F R C))
          → IsLive h
          → ((r' : Ring F R C) → RingIsValid r' → IsLive (session wide cs (some r')))
          → IsLive (session wide cs h)
      through none h rest = absurd h
      through (some r') h rest = rest r' h
