-- ===== src/Ring/Consumer/Rendered.antt =====
-- `consumer_render` of src/ring.rs keeps the ring valid: the proof from `play` on.
use rate_adjusting_pcm_ring.Common.{
  List, ℕ, zero, suc, ◌+◌, ◌*◌, ◌≤◌, ◌≡◌, refl, Option, none, some, Bool, true, false, not, ◌&&◌,
  ◌||◌, arith, length, ◌==◌, ltb, if◌then◌else◌,
}
use rate_adjusting_pcm_ring.Common.Int.{ltb_ℤ, pos}
use rate_adjusting_pcm_ring.Float.{Single, Double, Widen}
use rate_adjusting_pcm_ring.Mute.Types.{Position, max_spans}
use rate_adjusting_pcm_ring.Plc.State.{Plc}
use rate_adjusting_pcm_ring.Plc.Sound.Step.{process-IsSound}
use rate_adjusting_pcm_ring.Ring.Consumer.Finite.{advance_cache}
use rate_adjusting_pcm_ring.Mute.History.{muted}
use rate_adjusting_pcm_ring.Mute.History.Sorted.{retire-IsValid}
use rate_adjusting_pcm_ring.Ring.State.{
  Ring, Shared, ConsumerState, Finite, RefillResult, available, count_adapter_error,
}
use rate_adjusting_pcm_ring.Ring.State.Queue.{IsValid}
use rate_adjusting_pcm_ring.Ring.Consumer.Input.{is_some}
use rate_adjusting_pcm_ring.Ring.Consumer.Invariant.{IsSound, RingIsValid, IsConcealed, IsDrainable}
use rate_adjusting_pcm_ring.Ring.Consumer.Refill.{billion, refill_output}
use rate_adjusting_pcm_ring.Ring.Consumer.Refilled.{refill_output-RingIsValid}
use rate_adjusting_pcm_ring.Ring.Consumer.Filled.{IsFilled, refill_output-IsFilled}
use rate_adjusting_pcm_ring.Ring.Consumer.Cache.{cache_source_position, record_shortfall}
use rate_adjusting_pcm_ring.Ring.Consumer.Finite.{
  Rendered, is_ready, is_failed, note_finish, drain_mutes, delay_position, report_fault,
  complete_finite, drain_finite,
}
use rate_adjusting_pcm_ring.Ring.Consumer.Render.{
  is_draining, conceal_with, cached_input, cached_position, account, after_fetch, mute_and_retire,
  emit_sample, emit, retry_refill, play_finite, play, prime, consumer_render_sample, render_from,
  consumer_render,
}
use rate_adjusting_pcm_ring.Ring.Consumer.Drained.{
  record_shortfall-IsValid, note_finish-RingIsValid, drain_mutes-RingIsValid, advance_cache-IsSound,
  delay_position-IsSound, complete_finite-RingIsValid, drain_finite-RingIsValid,
}

module _ {F R : Type 0} ⦃single : Single F⦄ (double : Double R) where
  account-IsValid :
      (refill : RefillResult) (input : Option F) (s : Shared F)
      → IsValid s
      → IsValid (account double refill input s)
  unfolding count_adapter_error
  account-IsValid refill input s v =
      counted (is_failed refill) (record_shortfall double s (not (is_some input)))
        (record_shortfall-IsValid double s (not (is_some input)) v)
    where
      counted :
          (failed : Bool) (s1 : Shared F)
          → IsValid s1
          → IsValid (if failed then count_adapter_error s1 else s1)
      counted true s1 v1 = assumption
      counted false s1 v1 = v1

  capacity-account :
      (refill : RefillResult) (input : Option F) (s : Shared F)
      → (account double refill input s).capacity ≡ s.capacity
  unfolding record_shortfall count_adapter_error
  capacity-account refill input s = ground arith

not_draining : (finite : Finite) → is_draining finite ≡ false → finite.plc_remaining ≡ none
not_draining finite e = through (finite.end == 0) finite.plc_remaining e
  where
    through : (b : Bool) (left : Option ℕ) → (b || is_some left) ≡ false → left ≡ none
    through true left e = cc
    through false none e = refl
    through false (some n) e = cc

module _ {F R : Type 0} ⦃single : Single F⦄ ⦃double : Double R⦄ (wide : Widen F R) where
  -- The concealment behind a sample.
  conceal_with-IsConcealed :
      (silent : Bool) (plc : Option (Plc F)) (input : Option F) (positions : List (Option Position))
      (slot : ℕ)
      → IsConcealed plc positions slot
      → IsConcealed (conceal_with wide silent plc input).1 positions slot
  unfolding conceal_with
  conceal_with-IsConcealed true plc input positions slot k = k
  conceal_with-IsConcealed false none none positions slot k = k
  conceal_with-IsConcealed false none (some x) positions slot k = k
  conceal_with-IsConcealed false (some plc) input positions slot (inside, sound) =
      (inside, λ short. process-IsSound double wide plc input (sound short))

module _ {F R C : Type 0} ⦃single : Single F⦄ ⦃double : Double R⦄ (wide : Widen F R) where
  report_fault-RingIsValid : (r : Ring F R C) → RingIsValid r → RingIsValid (report_fault r).1
  unfolding report_fault count_adapter_error
  report_fault-RingIsValid r v = record { shared = assumption; consumer = assumption }

  mute_and_retire-RingIsValid :
      (failed : Bool) (out : F × Bool) (position : Option Position) (s : Shared F)
      (c : ConsumerState F R C)
      → IsValid s
      → IsSound c s.capacity
      → RingIsValid (mute_and_retire failed out position s c).1
  unfolding mute_and_retire
  mute_and_retire-RingIsValid failed out position s c v w =
      let moved = delay_position-IsSound c s.capacity position w in
      let d = delay_position c position in
      let h = retire-IsValid d.1.mute_history d.0 moved.history in
      record {
        shared = v;
        consumer = record {
          input_size = moved.input_size;
          output_size = moved.output_size;
          input_fits = moved.input_fits;
          output_fits = moved.output_fits;
          cached = moved.cached;
          accounted = moved.accounted;
          gaps_fit = moved.gaps_fit;
          history = h;
          drainable = moved.drainable;
          concealed = moved.concealed;
        };
      }

  after_fetch-IsSound :
      (refill : RefillResult) (r : Ring F R C)
      → RingIsValid r
      → IsFilled refill r
      → IsSound (after_fetch refill r.consumer) r.shared.capacity
  after_fetch-IsSound RefillResult.ready r v full =
      advance_cache-IsSound r.consumer r.shared.capacity v.consumer full
  after_fetch-IsSound RefillResult.starved r v full = v.consumer
  after_fetch-IsSound RefillResult.adapter_error r v full = v.consumer

  after_fetch-IsConcealed :
      (refill : RefillResult) (c : ConsumerState F R C) (plc : Option (Plc F))
      → IsConcealed plc c.plc_positions c.plc_position
      → IsConcealed plc (after_fetch refill c).plc_positions (after_fetch refill c).plc_position
  unfolding advance_cache
  after_fetch-IsConcealed RefillResult.ready c plc k = k
  after_fetch-IsConcealed RefillResult.starved c plc k = k
  after_fetch-IsConcealed RefillResult.adapter_error c plc k = k

  emit_sample-RingIsValid :
      (refill : RefillResult) (r : Ring F R C)
      → RingIsValid r
      → IsFilled refill r
      → RingIsValid (emit_sample wide refill r).1
  unfolding emit_sample
  emit_sample-RingIsValid refill r v full =
      let c = r.consumer in
      let position = cached_position refill c in
      let input : Option F =
        if muted c.mute_history position then some single.zero else cached_input refill c in
      let (out, plc) = conceal_with wide c.reset_failed c.plc input in
      let fetched = after_fetch-IsSound refill r v full in
      let concealed = after_fetch-IsConcealed refill c plc (
        conceal_with-IsConcealed wide c.reset_failed c.plc input c.plc_positions c.plc_position
          v.consumer.concealed) in
      mute_and_retire-RingIsValid (is_failed refill) out position
        (account double refill input r.shared) (record (after_fetch refill c) { plc = plc })
        (account-IsValid double refill input r.shared v.shared)
        (rw (capacity-account double refill input r.shared) assumption)

  emit-RingIsValid :
      (refill : RefillResult) (r : Ring F R C)
      → RingIsValid r
      → IsFilled refill r
      → RingIsValid (emit wide refill r).1
  unfolding emit
  emit-RingIsValid refill r v full = through r.consumer.mute_fault
    where
      through :
          (fault : Bool)
          → RingIsValid (if fault then report_fault r else emit_sample wide refill r).1
      through true = report_fault-RingIsValid r v
      through false = emit_sample-RingIsValid refill r v full

  retry_refill-RingIsValid :
      (n : ℕ) (refill : RefillResult) (r : Ring F R C)
      → RingIsValid r
      → IsFilled refill r
      → let (refill', r') = retry_refill n refill r in RingIsValid r' × IsFilled refill' r'
  unfolding retry_refill
  retry_refill-RingIsValid zero refill r v full = (v, full)
  retry_refill-RingIsValid (suc n) RefillResult.starved r v full =
      retry_refill-RingIsValid n (refill_output r.shared.target_samples r).0
        (refill_output r.shared.target_samples r).1
        (refill_output-RingIsValid r.shared.target_samples r v)
        (refill_output-IsFilled r.shared.target_samples r)
  retry_refill-RingIsValid (suc n) RefillResult.ready r v full = (v, full)
  retry_refill-RingIsValid (suc n) RefillResult.adapter_error r v full = (v, full)

  -- Past the end of a burst it is drained, before it another sample is emitted.
  ready-RingIsValid :
      (finite : Finite) (over : Bool) (r : Ring F R C)
      → RingIsValid r
      → finite.plc_remaining ≡ none
      → IsFilled RefillResult.ready r
      → RingIsValid (if over then drain_finite r finite else emit wide RefillResult.ready r).1
  ready-RingIsValid finite true r v whole full =
      drain_finite-RingIsValid r finite v (rw whole (omega arith))
  ready-RingIsValid finite false r v whole full = emit-RingIsValid RefillResult.ready r v full

  play_finite-RingIsValid :
      (finite : Finite) (refill : RefillResult) (r : Ring F R C)
      → RingIsValid r
      → finite.plc_remaining ≡ none
      → IsFilled refill r
      → RingIsValid (play_finite wide finite refill r).1
  unfolding play_finite
  play_finite-RingIsValid finite refill r v whole full =
      let n = r.shared.finite_refill_limit in
      let (v', full') = retry_refill-RingIsValid n refill r v full in
      through (retry_refill n refill r) v' full'
    where
      through :
          (q : RefillResult × Ring F R C)
          → RingIsValid q.1
          → IsFilled q.0 q.1
          → RingIsValid
              (if not (is_ready q.0)
                then complete_finite q.1 finite.token true
                else if not
                    (ltb_ℤ (cache_source_position q.1.consumer) (pos (finite.end * billion)))
                then drain_finite q.1 finite
                else emit wide q.0 q.1).1
      through (RefillResult.starved, r') v' full' =
          complete_finite-RingIsValid r' finite.token true v'
      through (RefillResult.adapter_error, r') v' full' =
          complete_finite-RingIsValid r' finite.token true v'
      through (RefillResult.ready, r') v' full' =
          ready-RingIsValid finite
            (not (ltb_ℤ (cache_source_position r'.consumer) (pos (finite.end * billion)))) r' v'
            whole full'

  play-RingIsValid :
      (r : Ring F R C) (finite : Option Finite)
      → RingIsValid r
      → IsDrainable finite r.consumer.plc_positions
      → RingIsValid (play wide r finite).1
  unfolding play
  play-RingIsValid r none v few =
      let target = r.shared.target_samples in
      emit-RingIsValid (refill_output target r).0 (refill_output target r).1
        (refill_output-RingIsValid target r v) (refill_output-IsFilled target r)
  play-RingIsValid r (some finite) v few =
      let target = r.shared.target_samples in
      through (is_draining finite)
        (play_finite wide finite (refill_output target r).0 (refill_output target r).1)
        (λ e.
          play_finite-RingIsValid finite (refill_output target r).0 (refill_output target r).1
            (refill_output-RingIsValid target r v) (not_draining finite e)
            (refill_output-IsFilled target r))
    where
      through :
          (draining : Bool) (rest : Rendered F × Ring F R C)
          → (draining ≡ false → RingIsValid rest.1)
          → RingIsValid (if draining then drain_finite r finite else rest).1
      through true rest h = drain_finite-RingIsValid r finite v few
      through false rest h = h refl

  prime-RingIsValid : (r : Ring F R C) → RingIsValid r → RingIsValid (prime wide r).1
  unfolding prime
  prime-RingIsValid r v =
      through (r.consumer.primed || r.consumer.reset_failed)
        (ltb (available r.shared) r.shared.reserve_samples && not (is_some r.consumer.finite))
    where
      primed : Ring F R C
      primed = record r { consumer = record r.consumer { primed = true } }

      through :
          (a b : Bool)
          → RingIsValid
              (if a
                then play wide r r.consumer.finite
                else if b
                then ((single.zero, false, false), r)
                else play wide
                    (record r { consumer = record r.consumer { primed = true } })
                    r.consumer.finite).1
      through true b = play-RingIsValid r r.consumer.finite v v.consumer.drainable
      through false true = v
      through false false =
          let ready : RingIsValid primed = assumption in
          play-RingIsValid primed r.consumer.finite ready v.consumer.drainable

  pub consumer_render_sample-RingIsValid :
      (r : Ring F R C) → RingIsValid r → RingIsValid (consumer_render_sample wide r).1
  unfolding consumer_render_sample
  consumer_render_sample-RingIsValid r0 v0 =
      let noted = note_finish-RingIsValid r0 v0 in
      let v = drain_mutes-RingIsValid (max_spans * 2) (note_finish r0) noted in
      let r = drain_mutes (max_spans * 2) (note_finish r0) in
      through r v r.consumer.mute_fault (r.consumer.quiet && available r.shared == 0)
    where
      through :
          (r : Ring F R C)
          → RingIsValid r
          → (a b : Bool)
          → RingIsValid
              (if a
                then report_fault r
                else if b
                then ((single.zero, false, r.consumer.reset_failed), r)
                else prime wide (record r { consumer = record r.consumer { quiet = false } })).1
      through r v true b = report_fault-RingIsValid r v
      through r v false true = v
      through r v false false =
          prime-RingIsValid (record r { consumer = record r.consumer { quiet = false } }) assumption

  render_from_lem :
      (n real : ℕ) (failed : Bool) (r : Ring F R C)
      → RingIsValid r
      → let (out, r') = render_from wide n real failed r in
        RingIsValid r' × (length out.0 ≡ n) × (real ≤ out.1) × (out.1 ≤ real + n)
  unfolding render_from
  render_from_lem zero real failed r v = (v, refl, omega arith, omega arith)
  render_from_lem (suc n) real failed r v =
      let (out, r') = consumer_render_sample wide r in
      let (v', len, low, high) =
        render_from_lem n (if out.1 then real + 1 else real) (failed || out.2) r'
          (consumer_render_sample-RingIsValid r v) in
      let step = counts out.1 in (v', omega arith, omega arith, omega arith)
    where
      counts :
          (b : Bool)
          → (real ≤ (if b then real + 1 else real)) × ((if b then real + 1 else real) ≤ real + 1)
      counts true = (omega arith, omega arith)
      counts false = (omega arith, omega arith)

  -- Rendering a block of a valid ring keeps it valid, whatever the adapter answers, and fills the
  -- whole block; at most as many samples are real as were rendered.
  pub consumer_render_lem :
      (n : ℕ) (r : Ring F R C)
      → RingIsValid r
      → let (out, r') = consumer_render wide n r in
        RingIsValid r' × (length out.0 ≡ n) × (out.1 ≤ n)
  unfolding consumer_render
  consumer_render_lem n r v =
      let (v', len, low, high) = render_from_lem n 0 false r v in (v', len, omega arith)
