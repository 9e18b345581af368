-- ===== src/Ring/Consumer/Ending.antt =====
-- How a finite burst of src/ring.rs ends: `drain_finite` behind `consumer_render_sample`.
pub mod Empty
use rate_adjusting_pcm_ring.Common.{
  ℕ, zero, suc, ◌+◌, ◌*◌, ◌/◌, ◌^◌, ◌<◌, ◌≡◌, ◌≢◌, ◌⊎◌, inl, inr, refl, sym, ap, ◌∙◌, List, Option,
  none, some, Bool, true, false, not, ◌&&◌, ◌||◌, Bool-cases, arith, length, ltb, ◌==◌, ==_iff,
  if◌then◌else◌,
}
use rate_adjusting_pcm_ring.Float.{Single, Double, Widen}
use rate_adjusting_pcm_ring.Mute.Types.{max_spans}
use rate_adjusting_pcm_ring.Mute.Mailbox
use rate_adjusting_pcm_ring.Adapter.{Converter}
use rate_adjusting_pcm_ring.Adapter
use rate_adjusting_pcm_ring.Plc.State.{Plc}
use rate_adjusting_pcm_ring.Plc.Process.{drain_sample}
use rate_adjusting_pcm_ring.Ring.State.{Ring, Shared, ConsumerState, Finite, available}
use rate_adjusting_pcm_ring.Ring.Finish.{
  FinishStatus, finish_word, producer_finish, is_pending, finish_pending, finish_status,
}
use rate_adjusting_pcm_ring.Ring.Finish.Protocol.{
  granted, word_token, pending_word, complete_finite_lem,
}
use rate_adjusting_pcm_ring.Ring.Consumer.Input.{is_some}
use rate_adjusting_pcm_ring.Ring.Consumer.Cache.{reset}
use rate_adjusting_pcm_ring.Ring.Consumer.Finite.{
  Rendered, remaining_of, note_finish, drain_mutes, complete_finite, drain_lookahead,
  drain_finite_at, drain_finite,
}
use rate_adjusting_pcm_ring.Ring.Consumer.Render.{
  is_draining, play, prime, consumer_render_sample, render_from, consumer_render,
}

-- The burst of the token is past its end, and `left` samples of the lookahead are still to come. No mute
-- is unread, none was refused, and the consumer is not quiet. A lookahead comes with a concealment.
pub record IsDraining {F R C : Type 0} (token left : ℕ) (k : Converter F R C) (r : Ring F R C)
    : Type 0 where
  pub burst : Finite
  pub current : r.consumer.finite ≡ some burst
  pub its_token : burst.token ≡ token
  pub ended : is_draining burst ≡ true
  pub left_over : remaining_of burst.plc_remaining (length r.consumer.plc_positions) ≡ left
  pub lookahead : (left ≡ 0) ⊎ ((plc : Plc F) × (r.consumer.plc ≡ some plc))
  pub awake : r.consumer.quiet ≡ false
  pub sound : r.consumer.mute_fault ≡ false
  pub no_mutes : r.shared.mute_mailbox.read ≡ r.shared.mute_mailbox.written
  pub converter : r.consumer.converter ≡ k

or_true : (b : Bool) → (b || true) ≡ true
or_true true = refl
or_true false = refl

-- Neither a mute fault nor quiet.
undisturbed :
    {A : Type 0} (a b c : Bool) (x y : A) {z : A}
    → a ≡ false
    → b ≡ false
    → (if a then x else if b && c then y else z) ≡ z
undisturbed a b c x y e e' = rw (e, e') refl

settled :
    (done b : Bool)
    → b ≡ done
    → (if not b || false then FinishStatus.adapter_error else FinishStatus.drained)
      ≡ (if done then FinishStatus.drained else FinishStatus.adapter_error)
settled true b e = rw e refl
settled false b e = rw e refl

known :
    (b : Bool) (finite : Option Finite) {burst : Finite}
    → finite ≡ some burst
    → (b && not (is_some finite)) ≡ false
known true finite e = rw e refl
known false finite e = refl

module _ {F R C : Type 0} where
  pub noted_draining :
      (token left : ℕ) (k : Converter F R C) (r : Ring F R C)
      → IsDraining token left k r
      → note_finish r ≡ r
  unfolding note_finish
  noted_draining token left k r h =
      rw (known (is_pending r.shared.finish) r.consumer.finite h.current) refl

  no_mutes_drained :
      (n : ℕ) (r : Ring F R C)
      → r.shared.mute_mailbox.read ≡ r.shared.mute_mailbox.written
      → drain_mutes n r ≡ r
  unfolding drain_mutes Mailbox.pop
  no_mutes_drained zero r e = refl
  no_mutes_drained (suc n) r e =
      rw (drain_mutes, (==_iff r.shared.mute_mailbox.read r.shared.mute_mailbox.written).1 e) refl

module _ {F R C : Type 0} ⦃single : Single F⦄ ⦃double : Double R⦄ (wide : Widen F R) where
  play_draining :
      (token left : ℕ) (k : Converter F R C) (r : Ring F R C)
      → (h : IsDraining token left k r) → play wide r r.consumer.finite ≡ drain_finite r h.burst
  unfolding play
  play_draining token left k r h = rw (h.current, h.ended) refl

  -- What a render does to the burst: the ring that `drain_finite` is called on differs in flags only.
  prime-IsDraining :
      (token left : ℕ) (k : Converter F R C) (r : Ring F R C)
      → IsDraining token left k r
      → (r1 : Ring F R C) × (h : IsDraining token left k r1) × (prime wide r
          ≡ drain_finite r1 h.burst)
  unfolding prime
  prime-IsDraining token left k r h =
      elim (Bool-cases (r.consumer.primed || r.consumer.reset_failed)) [
        | inl e ↦ (r, h, rw e (play_draining token left k r h))
        | inr e ↦
            let r1 : Ring F R C = record r { consumer = record r.consumer { primed = true } } in
            let h1 : IsDraining token left k r1 = record {
              burst = h.burst;
              current = h.current;
              its_token = h.its_token;
              ended = h.ended;
              left_over = h.left_over;
              lookahead = h.lookahead;
              awake = h.awake;
              sound = h.sound;
              no_mutes = h.no_mutes;
              converter = h.converter;
            } in
            (
              r1,
              h1,
              rw
                  (
                    e,
                    known (ltb (available r.shared) r.shared.reserve_samples) r.consumer.finite
                        h.current,
                  )
                  (play_draining token left k r1 h1),
            )
      ]

  -- So a rendered sample of such a burst is one of `drain_finite`.
  sample-IsDraining :
      (token left : ℕ) (k : Converter F R C) (r : Ring F R C)
      → IsDraining token left k r
      → (r1 : Ring F R C) × (h : IsDraining token left k r1) × (consumer_render_sample wide r
          ≡ drain_finite r1 h.burst)
  unfolding consumer_render_sample
  sample-IsDraining token left k r h =
      let awake : Ring F R C = record r { consumer = record r.consumer { quiet = false } } in
      let h1 : IsDraining token left k awake = record {
        burst = h.burst;
        current = h.current;
        its_token = h.its_token;
        ended = h.ended;
        left_over = h.left_over;
        lookahead = h.lookahead;
        awake = refl;
        sound = h.sound;
        no_mutes = h.no_mutes;
        converter = h.converter;
      } in
      let (r1, h', e) = prime-IsDraining token left k awake h1 in
      (
        r1,
        h',
        rw (noted_draining token left k r h, no_mutes_drained (max_spans * 2) r h.no_mutes)
            (undisturbed r.consumer.mute_fault r.consumer.quiet (available r.shared == 0) _ _
                h.sound h.awake
              ∙ e),
      )

  -- With samples left, one leaves the lookahead.
  drain_step :
      (token left : ℕ) (k : Converter F R C) (r : Ring F R C)
      → (h : IsDraining token (suc left) k r) → IsDraining token left k (drain_finite r h.burst).1
  unfolding drain_finite drain_finite_at drain_lookahead
  drain_step token left k r h = elim h.lookahead [
    | inl none_left ↦ absurd (omega arith)
    | inr (plc, e) ↦
        rw (h.left_over, e)
          (record {
            burst = record h.burst { plc_remaining = some left };
            current = refl;
            its_token = h.its_token;
            ended = or_true (h.burst.end == 0);
            left_over = refl;
            lookahead = inr ((drain_sample plc).1, refl);
            awake = h.awake;
            sound = h.sound;
            no_mutes = h.no_mutes;
            converter = h.converter;
          })
  ]

  -- With none left, the token is settled.
  drain_end :
      (token : ℕ) (k : Converter F R C) (r : Ring F R C)
      → (h : IsDraining token 0 k r) → token ≢ 0
      → let s = (drain_finite r h.burst).1.shared in
        (finish_status s token
          ≡ some (if (Adapter.reset k).0 then FinishStatus.drained else FinishStatus.adapter_error))
        × (finish_pending s ≡ false)
  unfolding drain_finite drain_finite_at
  drain_end token k r h ne =
      let positive : h.burst.token ≢ 0 = λ z. ne (sym h.its_token ∙ z) in
      let (read, idle, _, _) = complete_finite_lem r h.burst.token false positive in
      let outcome : (reset r.consumer).0 ≡ (Adapter.reset k).0 =
        unfold reset in ap (λ c. (Adapter.reset c).0) h.converter in
      rw (h.left_over, ← h.its_token)
        (read ∙ ap some (settled (Adapter.reset k).0 (reset r.consumer).0 outcome), idle)

  -- A finite burst that drains, with `left` samples in its lookahead (there is a concealment if there are
  -- any), a nonzero token, no unread mute, no mute fault and a consumer that is not quiet, ends after
  -- `left` samples and one more: its token then reads `Drained`, or `AdapterError` if the reset of the
  -- adapter fails, and no burst is outstanding.
  pub consumer_render_ends :
      (token left : ℕ) (k : Converter F R C) (r : Ring F R C)
      → IsDraining token left k r
      → token ≢ 0
      → let s = (consumer_render wide (suc left) r).1.shared in
        (finish_status s token
          ≡ some (if (Adapter.reset k).0 then FinishStatus.drained else FinishStatus.adapter_error))
        × (finish_pending s ≡ false)
  unfolding consumer_render
  consumer_render_ends token left k r h ne = rendered left 0 false r h
    where
      rendered :
          (left real : ℕ) (failed : Bool) (r : Ring F R C)
          → IsDraining token left k r
          → let s = (render_from wide (suc left) real failed r).1.shared in
            (finish_status s token
              ≡ some (
                  if (Adapter.reset k).0 then FinishStatus.drained else FinishStatus.adapter_error))
            × (finish_pending s ≡ false)
      rendered zero real failed r h =
          let (r1, h1, e) = sample-IsDraining token zero k r h in
          rw (render_from, e) (drain_end token k r1 h1 ne)
      rendered (suc left) real failed r h =
          let (r1, h1, e) = sample-IsDraining token (suc left) k r h in
          let out : Rendered F = (drain_finite r1 h1.burst).0 in
          rw (render_from, e)
            (rendered left (if out.1 then real + 1 else real) (failed || out.2)
              (drain_finite r1 h1.burst).1 (drain_step token left k r1 h1))
