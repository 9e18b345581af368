-- ===== src/Ring/Consumer/Render.antt =====
-- Rendering and reset of src/ring.rs.
use rate_adjusting_pcm_ring.Common.{
  ℕ, zero, suc, ◌+◌, ◌*◌, List, [], ◌∷◌, Option, none, some, Bool, true, false, not, ◌&&◌, ◌||◌,
  get_or, ltb, ◌==◌, if◌then◌else◌,
}
use rate_adjusting_pcm_ring.Common.Int.{pos, ltb_ℤ}
use rate_adjusting_pcm_ring.Float.{Single, Double, Widen}
use rate_adjusting_pcm_ring.Mute.Types.{Position, max_spans}
use rate_adjusting_pcm_ring.Mute.Mailbox
use rate_adjusting_pcm_ring.Mute.History.{muted, retire}
use rate_adjusting_pcm_ring.Plc.State.{Plc}
use rate_adjusting_pcm_ring.Plc.Process.{process}
use rate_adjusting_pcm_ring.Ring.State.{
  Ring, Shared, ConsumerState, Finite, RefillResult, available, canonicalize, count_adapter_error,
}
use rate_adjusting_pcm_ring.Ring.Finish.{is_pending}
use rate_adjusting_pcm_ring.Ring.Consumer.Input.{is_some}
use rate_adjusting_pcm_ring.Ring.Consumer.Refill.{billion, refill_output}
use rate_adjusting_pcm_ring.Ring.Consumer.Cache.{
  cache_source_position, cache_position, reset, record_shortfall,
}
use rate_adjusting_pcm_ring.Ring.Consumer.Finite.{
  Rendered, next_serial, is_ready, is_failed, note_finish, drain_mutes, advance_cache,
  delay_position, report_fault, complete_finite, drain_finite,
}

abbrev pub is_draining : Finite → Bool
is_draining finite = finite.end == 0 || is_some finite.plc_remaining

module _ {F R : Type 0} ⦃single : Single F⦄ ⦃double : Double R⦄ (wide : Widen F R) where
  -- The optional concealment of one sample, silenced after a failed reset.
  unfoldable pub conceal_with : Bool → Option (Plc F) → Option F → (F × Bool) × Option (Plc F)
  unfolding process
  conceal_with true plc input = ((single.zero, false), plc)
  conceal_with false none none = ((single.zero, false), none)
  conceal_with false none (some sample) = ((sample, true), none)
  conceal_with false (some plc) input =
      let (out, plc') = process double wide plc input in (out, some plc')

module _ {F R : Type 0} (double : Double R) where
  -- The counters behind a sample; `none` is a missing one.
  abbrev pub account : RefillResult → Option F → Shared F → Shared F
  account refill input s =
      let s1 = record_shortfall double s (not (is_some input)) in
      if is_failed refill then count_adapter_error s1 else s1

module _ {F R C : Type 0} where
  -- The cached sample is consumed if the refill left one.
  abbrev pub after_fetch : RefillResult → ConsumerState F R C → ConsumerState F R C
  after_fetch refill c = if is_ready refill then advance_cache c else c

  abbrev pub cached_position : RefillResult → ConsumerState F R C → Option Position
  cached_position refill c = if is_ready refill then cache_position c else none

module _ {F R C : Type 0} ⦃single : Single F⦄ where
  -- The converted sample at the cache's head, if there is one and it is not a mapped gap.
  unfoldable pub cached_input : RefillResult → ConsumerState F R C → Option F
  unfolding canonicalize
  cached_input refill c =
      if is_ready refill && not c.output_missing
      then some (canonicalize (get_or c.output c.output_offset single.zero))
      else none

  -- The sample that leaves the concealment goes out at its own position.
  unfoldable pub mute_and_retire :
      Bool → F × Bool → Option Position → Shared F → ConsumerState F R C → Rendered F × Ring F R C
  unfolding delay_position
  mute_and_retire failed out position s c =
      let (delayed, c') = delay_position c position in
      (
        ((if muted c'.mute_history delayed then single.zero else out.0), out.1, failed),
        record {
          shared = s;
          consumer = record c' { mute_history = retire c'.mute_history delayed };
        },
      )

module _ {F R C : Type 0} ⦃single : Single F⦄ ⦃double : Double R⦄ where
  -- The bounded retries of a finite tail.
  unfoldable pub retry_refill : ℕ → RefillResult → Ring F R C → RefillResult × Ring F R C
  retry_refill zero refill r = (refill, r)
  retry_refill (suc n) RefillResult.starved r =
      let (refill, r') = refill_output r.shared.target_samples r in retry_refill n refill r'
  retry_refill (suc n) RefillResult.ready r = (RefillResult.ready, r)
  retry_refill (suc n) RefillResult.adapter_error r = (RefillResult.adapter_error, r)

module _ {F R C : Type 0} ⦃single : Single F⦄ ⦃double : Double R⦄ (wide : Widen F R) where
  -- The sample behind the cache, concealed, muted and accounted.
  unfoldable pub emit_sample : RefillResult → Ring F R C → Rendered F × Ring F R C
  unfolding cached_input advance_cache record_shortfall count_adapter_error conceal_with
      mute_and_retire
  emit_sample refill r =
      let c = r.consumer in
      let position = cached_position refill c in
      let fetched = cached_input refill c in
      let input = if muted c.mute_history position then some single.zero else fetched in
      let (out, plc) = conceal_with wide c.reset_failed c.plc input in
      mute_and_retire (is_failed refill) out position (account double refill input r.shared)
        (record (after_fetch refill c) { plc = plc })

  -- The rest of `consumer_render_sample` once the cache was refilled. A mute fault returns before
  -- anything else.
  unfoldable pub emit : RefillResult → Ring F R C → Rendered F × Ring F R C
  unfolding report_fault emit_sample
  emit refill r = if r.consumer.mute_fault then report_fault r else emit_sample refill r

  -- A finite burst after its refill: failure, the end of the burst, or one more sample.
  unfoldable pub play_finite : Finite → RefillResult → Ring F R C → Rendered F × Ring F R C
  unfolding retry_refill complete_finite drain_finite emit
  play_finite finite refill0 r0 =
      let (refill, r) = retry_refill r0.shared.finite_refill_limit refill0 r0 in
      if not (is_ready refill)
      then complete_finite r finite.token true
      else if not (ltb_ℤ (cache_source_position r.consumer) (pos (finite.end * billion)))
      then drain_finite r finite
      else emit refill r

  unfoldable pub play : Ring F R C → Option Finite → Rendered F × Ring F R C
  unfolding drain_finite play_finite emit
  play r none = let (refill, r') = refill_output r.shared.target_samples r in emit refill r'
  play r (some finite) =
      let (refill, r') = refill_output r.shared.target_samples r in
      if is_draining finite then drain_finite r finite else play_finite finite refill r'

  -- Priming: a new burst waits for its reserve.
  unfoldable pub prime : Ring F R C → Rendered F × Ring F R C
  unfolding play available
  prime r =
      let c = r.consumer in
      let primed : Ring F R C = record r { consumer = record c { primed = true } } in
      if c.primed || c.reset_failed
      then play r c.finite
      else if ltb (available r.shared) r.shared.reserve_samples && not (is_some c.finite)
      then ((single.zero, false, false), r)
      else play primed c.finite

  unfoldable pub consumer_render_sample : Ring F R C → Rendered F × Ring F R C
  unfolding note_finish drain_mutes report_fault available prime
  consumer_render_sample r0 =
      let r = drain_mutes (max_spans * 2) (note_finish r0) in
      let c = r.consumer in
      if c.mute_fault
      then report_fault r
      else if c.quiet && available r.shared == 0
      then ((single.zero, false, c.reset_failed), r)
      else prime (record r { consumer = record c { quiet = false } })

  -- The loop of `consumer_render` over an output slice of `n` samples: the samples, the number of
  -- real ones, and whether the adapter failed.
  unfoldable pub render_from : ℕ → ℕ → Bool → Ring F R C → (List F × ℕ × Bool) × Ring F R C
  render_from zero real failed r = (([], real, failed), r)
  render_from (suc n) real failed r =
      let (out, r') = consumer_render_sample r in
      let (rest, r'') = render_from n (if out.1 then real + 1 else real) (failed || out.2) r' in
      ((out.0 ∷ rest.0, rest.1, rest.2), r'')

  unfoldable pub consumer_render : ℕ → Ring F R C → (List F × ℕ × Bool) × Ring F R C
  unfolding render_from
  consumer_render n r = render_from n 0 false r

module _ {F R C : Type 0} ⦃single : Single F⦄ ⦃double : Double R⦄ where
  -- `true` is `Ok(())`.
  unfoldable pub consumer_reset : Ring F R C → Bool × Ring F R C
  unfolding reset is_pending
  consumer_reset r =
      let s = r.shared in
      let (done, c) = reset r.consumer in
      (
        done,
        record {
          shared = record s {
            read = s.written;
            mute_mailbox = Mailbox.reset s.mute_mailbox;
            reset_serial = next_serial s.reset_serial;
            finish = if is_pending s.finish then s.finish + 2 else s.finish;
          };
          consumer = c;
        },
      )
