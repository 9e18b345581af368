-- ===== src/Ring/Consumer/Drained.antt =====
-- The steps of rendering in src/ring.rs up to a conversion, the end of a finite burst and
-- `consumer_reset` keep the ring valid.
use rate_adjusting_pcm_ring.Common.{
  List, length, length-set, length-replicate, replicate, set, ◌+◌, ◌%◌, ◌≤◌, ℕ, zero, suc, ◌≡◌, ◌≢◌,
  inl, inr, refl, ◌∙◌, [], Option, none, some, Bool, true, false, not, ◌&&◌, ◌||◌, Bool-cases,
  arith, get_or, if◌then◌else◌,
}
use rate_adjusting_pcm_ring.Common.Cursor.{distance-eq_zero}
use rate_adjusting_pcm_ring.Float.{Single, Double}
use rate_adjusting_pcm_ring.Mute.Types.{Position, Interval}
use rate_adjusting_pcm_ring.Mute.Mailbox
use rate_adjusting_pcm_ring.Mute.Mailbox.Proper.{
  IsSound as IsSound', pop-IsSound, reset-IsSound as reset-IsSound',
}
use rate_adjusting_pcm_ring.Mute.Mailbox.Refine.{reset_empties}
use rate_adjusting_pcm_ring.Mute.Mailbox.Refine
use rate_adjusting_pcm_ring.Mute.History.{insert}
use rate_adjusting_pcm_ring.Mute.History.Sorted.{
  IsProper, insert-IsValid, retire-IsValid, clear-IsValid,
}
use native.Mathlib.Nat.{mod-lt}
use mathlib.Core.Option
use rate_adjusting_pcm_ring.Plc.State.{Plc, reset as reset_plc}
use rate_adjusting_pcm_ring.Plc.Sound.Step.{
  drain_sample-IsSound, reset-IsSound as reset_plc-IsSound,
}
use rate_adjusting_pcm_ring.Ring.State.{Ring, Shared, ConsumerState, Finite, count_adapter_error}
use rate_adjusting_pcm_ring.Ring.State.Queue.{IsValid, contents, contents_nil}
use rate_adjusting_pcm_ring.Ring.Finish.{is_pending}
use rate_adjusting_pcm_ring.Ring.Consumer.Input.{is_some}
use rate_adjusting_pcm_ring.Ring.Consumer.Invariant.{IsSound, RingIsValid, IsConcealed, IsDrainable}
use rate_adjusting_pcm_ring.Ring.Consumer.Refill.{is_empty}
use rate_adjusting_pcm_ring.Ring.Consumer.Cache.{reset, record_shortfall}
use rate_adjusting_pcm_ring.Ring.Consumer.Finite.{
  note_finish, drain_mutes, advance_cache, delay_position, discard_failed, next_serial,
  complete_finite, drain_lookahead, drain_finite_at, drain_finite,
}
use rate_adjusting_pcm_ring.Ring.Consumer.Render.{consumer_reset}

module _ {F R : Type 0} ⦃single : Single F⦄ (double : Double R) where
  pub record_shortfall-IsValid :
      (s : Shared F) (is_missing : Bool)
      → IsValid s
      → IsValid (record_shortfall double s is_missing)
  unfolding record_shortfall
  record_shortfall-IsValid s is_missing v = assumption

-- The next slot of the lookahead, in the same lookahead or one as long.
next-IsConcealed :
    {F : Type 0} (plc : Option (Plc F)) (positions : List (Option Position)) (slot : ℕ)
    → IsConcealed plc positions slot
    → IsConcealed plc positions ((slot + 1) % length positions)
next-IsConcealed none positions slot k = k
next-IsConcealed (some plc) positions slot (inside, sound) =
    (mod-lt (slot + 1) {m = length positions} (omega arith), sound)

IsConcealed-as_long :
    {F : Type 0} (plc : Option (Plc F)) (positions others : List (Option Position)) (slot : ℕ)
    → length others ≡ length positions
    → IsConcealed plc positions slot
    → IsConcealed plc others slot
IsConcealed-as_long none positions others slot e k = e ∙ k
IsConcealed-as_long (some plc) positions others slot e (inside, sound) =
    (omega arith, λ short. sound (omega arith))

IsDrainable-as_long :
    (finite : Option Finite) (positions others : List (Option Position))
    → length others ≡ length positions
    → IsDrainable finite positions
    → IsDrainable finite others
IsDrainable-as_long none positions others e d = tt
IsDrainable-as_long (some finite) positions others e d = rw e d

set-IsDrainable :
    (finite : Option Finite) (positions : List (Option Position)) (slot : ℕ) (x : Option Position)
    → IsDrainable finite positions
    → IsDrainable finite (set positions slot x)
set-IsDrainable finite positions slot x d =
    IsDrainable-as_long finite positions (set positions slot x) (length-set positions slot x) d

set-IsConcealed :
    {F : Type 0} (plc : Option (Plc F)) (positions : List (Option Position)) (slot : ℕ)
    (x : Option Position)
    → IsConcealed plc positions slot
    → IsConcealed plc (set positions slot x) ((slot + 1) % length positions)
set-IsConcealed plc positions slot x k =
    IsConcealed-as_long plc positions (set positions slot x) ((slot + 1) % length positions)
      (length-set positions slot x) (next-IsConcealed plc positions slot k)

-- A reset empties the lookahead and resets the concealment.
reset-IsConcealed :
    {F : Type 0} ⦃single : Single F⦄ (plc : Option (Plc F)) (positions : List (Option Position))
    (slot : ℕ)
    → IsConcealed plc positions slot
    → IsConcealed (Option.map reset_plc plc) (replicate (length positions) none) 0
reset-IsConcealed none positions slot k = length-replicate (length positions) none ∙ k
reset-IsConcealed (some plc) positions slot (inside, sound) =
    let size = length-replicate {A = Option Position} (length positions) none in
    (omega arith, λ short. reset_plc-IsSound plc (sound (omega arith)))

module _ {F R C : Type 0} where
  pub note_finish-RingIsValid : (r : Ring F R C) → RingIsValid r → RingIsValid (note_finish r)
  unfolding note_finish
  note_finish-RingIsValid r v =
      elim (Bool-cases (is_pending r.shared.finish && not (is_some r.consumer.finite))) [
        | inl e ↦
            let whole : length r.consumer.plc_positions ≤ length r.consumer.plc_positions =
              omega arith in
            rw e assumption
        | inr e ↦ rw e v
      ]

  pub drain_mutes-RingIsValid :
      (n : ℕ) (r : Ring F R C) → RingIsValid r → RingIsValid (drain_mutes n r)
  unfolding drain_mutes
  drain_mutes-RingIsValid zero r v = v
  drain_mutes-RingIsValid (suc n) r v =
      let (sound, proper) = pop-IsSound r.shared.mute_mailbox v.shared.mailbox in
      through (drain_mutes-RingIsValid n) (Mailbox.pop r.shared.mute_mailbox) sound proper
    where
      through :
          ((r' : Ring F R C) → RingIsValid r' → RingIsValid (drain_mutes n r'))
          → (p : Option Interval × Mailbox.Mailbox) → IsSound' p.1
          → ((x : Interval) → p.0 ≡ some x → IsProper x)
          → RingIsValid (elim p.0 as (λ _. Ring F R C) [
            | none ↦ r
            | some interval ↦
                let (history, accepted) = insert r.consumer.mute_history interval in
                drain_mutes n (record {
                  shared = record r.shared { mute_mailbox = p.1 };
                  consumer = record r.consumer {
                    mute_history = history;
                    mute_fault = if accepted then r.consumer.mute_fault else true;
                  };
                })
          ])
      through go (none, m) sound proper = v
      through go (some x, m) sound proper =
          let kept = insert-IsValid r.consumer.mute_history x v.consumer.history (proper x refl) in
          go _ (record { shared = assumption; consumer = assumption })

  pub advance_cache-IsSound :
      (c : ConsumerState F R C) (capacity : ℕ)
      → IsSound c capacity
      → c.output_pending ≢ 0
      → IsSound (advance_cache c) capacity
  unfolding advance_cache
  advance_cache-IsSound c capacity v busy =
      let fits = v.output_fits in
      let counted = v.cached busy in
      record {
        input_size = v.input_size;
        output_size = v.output_size;
        input_fits = v.input_fits;
        output_fits = ground arith;
        cached = λ more. ground arith;
        accounted = v.accounted;
        gaps_fit = v.gaps_fit;
        history = v.history;
        drainable = v.drainable;
        concealed = v.concealed;
      }

  pub delay_position-IsSound :
      (c : ConsumerState F R C) (capacity : ℕ) (position : Option Position)
      → IsSound c capacity
      → IsSound (delay_position c position).1 capacity
  unfolding delay_position
  delay_position-IsSound c capacity position v = elim (Bool-cases (is_empty c.plc_positions)) [
    | inl e ↦ rw e v
    | inr e ↦
        let d = v.drainable in
        let k = v.concealed in
        let d' = set-IsDrainable c.finite c.plc_positions c.plc_position position d in
        let k' = set-IsConcealed c.plc c.plc_positions c.plc_position position k in
        rw e (record {
          input_size = v.input_size;
          output_size = v.output_size;
          input_fits = v.input_fits;
          output_fits = v.output_fits;
          cached = v.cached;
          accounted = v.accounted;
          gaps_fit = v.gaps_fit;
          history = v.history;
          drainable = d';
          concealed = k';
        })
  ]

module _ {F : Type 0} where
  -- The ring once everything that was published so far is discarded.
  pub discarded-IsValid :
      (s : Shared F)
      → IsValid s
      → IsValid (record s { read = s.written; mute_mailbox = Mailbox.reset s.mute_mailbox })
  discarded-IsValid s v =
      let silent = reset-IsSound' s.mute_mailbox v.mailbox in
      let z = (distance-eq_zero s.capacity s.written s.written v.written_lt v.written_lt).1 refl in
      record {
        at_least = v.at_least;
        at_most = v.at_most;
        size = v.size;
        written_lt = v.written_lt;
        read_lt = v.written_lt;
        fits = omega arith;
        mailbox = silent;
        discarded_fits = v.discarded_fits;
      }

  discard_failed-IsValid :
      (failed : Bool) (s : Shared F) → IsValid s → IsValid (discard_failed failed s)
  unfolding discard_failed count_adapter_error
  discard_failed-IsValid true s v = let d = discarded-IsValid s v in assumption
  discard_failed-IsValid false s v = v

  capacity-discard_failed :
      (failed : Bool) (s : Shared F) → (discard_failed failed s).capacity ≡ s.capacity
  unfolding discard_failed count_adapter_error
  capacity-discard_failed true s = refl
  capacity-discard_failed false s = refl

module _ {F R : Type 0} (double : Double R) where
  capacity-record_shortfall :
      (s : Shared F) (is_missing : Bool)
      → (record_shortfall double s is_missing).capacity ≡ s.capacity
  unfolding record_shortfall
  capacity-record_shortfall s is_missing = refl

module _ {F R C : Type 0} ⦃single : Single F⦄ ⦃double : Double R⦄ where
  pub reset-IsSound :
      (c : ConsumerState F R C) (capacity : ℕ) → IsSound c capacity → IsSound (reset c).1 capacity
  unfolding reset
  reset-IsSound c capacity v = record {
    input_size = v.input_size;
    output_size = v.output_size;
    input_fits = omega arith;
    output_fits = omega arith;
    cached = λ busy. absurd (busy refl);
    accounted = refl;
    gaps_fit = omega arith;
    history = clear-IsValid c.mute_history;
    drainable = tt;
    concealed = reset-IsConcealed c.plc c.plc_positions c.plc_position v.concealed;
  }

  pub complete_finite-RingIsValid :
      (r : Ring F R C) (token : ℕ) (adapter_failed : Bool)
      → RingIsValid r
      → RingIsValid (complete_finite r token adapter_failed).1
  unfolding complete_finite
  complete_finite-RingIsValid r token adapter_failed v =
      let s1 : Shared F =
        record_shortfall double
          (record r.shared { reset_serial = next_serial r.shared.reset_serial }) false in
      let failed : Bool = not (reset r.consumer).0 || adapter_failed in
      let kept = discard_failed-IsValid failed s1 (
        record_shortfall-IsValid double
          (record r.shared { reset_serial = next_serial r.shared.reset_serial }) false
          assumption) in
      let c = reset-IsSound r.consumer r.shared.capacity v.consumer in
      let same : (discard_failed failed s1).capacity ≡ r.shared.capacity =
        capacity-discard_failed failed s1
        ∙ capacity-record_shortfall double
            (record r.shared { reset_serial = next_serial r.shared.reset_serial }) false in
      record { shared = assumption; consumer = rw same assumption }

  -- A consumer reset of a valid ring keeps it valid and leaves no unread sample and no unread mute
  -- interval, whether the reset of the adapter succeeds or not.
  pub consumer_reset_lem :
      (r : Ring F R C)
      → RingIsValid r
      → let r' = (consumer_reset r).1 in
        RingIsValid r'
        × (contents r'.shared ≡ [])
        × (Mailbox.Refine.contents r'.shared.mute_mailbox ≡ [])
  unfolding consumer_reset contents
  consumer_reset_lem r v =
      let d = discarded-IsValid r.shared v.shared in
      let c = reset-IsSound r.consumer r.shared.capacity v.consumer in
      (
        record { shared = assumption; consumer = assumption },
        contents_nil
            (record r.shared {
              read = r.shared.written;
              mute_mailbox = Mailbox.reset r.shared.mute_mailbox;
            })
            d refl,
        (reset_empties r.shared.mute_mailbox v.shared.mailbox.valid).1,
      )

  -- One sample leaves the lookahead.
  pub drain_lookahead-RingIsValid :
      (r : Ring F R C) (finite : Finite) (left : ℕ) (plc : Plc F)
      → RingIsValid r
      → r.consumer.plc ≡ some plc
      → left ≤ length r.consumer.plc_positions
      → RingIsValid (drain_lookahead r finite left plc).1
  unfolding drain_lookahead
  drain_lookahead-RingIsValid r finite left plc v e few =
      let c = r.consumer in
      let u = v.consumer in
      let h =
        retire-IsValid c.mute_history (get_or c.plc_positions c.plc_position none) u.history in
      let k = u.concealed in
      let (inside, sound) = rw e at k in
      record {
        shared = v.shared;
        consumer = record {
          input_size = u.input_size;
          output_size = u.output_size;
          input_fits = u.input_fits;
          output_fits = u.output_fits;
          cached = u.cached;
          accounted = u.accounted;
          gaps_fit = u.gaps_fit;
          history = h;
          drainable = few;
          concealed = (
            mod-lt (c.plc_position + 1) {m = length c.plc_positions} (omega arith),
            λ short. drain_sample-IsSound plc (sound short),
          );
        };
      }

  pub drain_finite_at-RingIsValid :
      (r : Ring F R C) (finite : Finite) (left : ℕ) (plc : Option (Plc F))
      → RingIsValid r
      → r.consumer.plc ≡ plc
      → left ≤ length r.consumer.plc_positions
      → RingIsValid (drain_finite_at r finite left plc).1
  unfolding drain_finite_at
  drain_finite_at-RingIsValid r finite zero plc v e few =
      complete_finite-RingIsValid r finite.token false v
  drain_finite_at-RingIsValid r finite (suc left) none v e few =
      complete_finite-RingIsValid r finite.token false v
  drain_finite_at-RingIsValid r finite (suc left) (some plc) v e few =
      drain_lookahead-RingIsValid r finite left plc v e (omega arith)

  pub drain_finite-RingIsValid :
      (r : Ring F R C) (finite : Finite)
      → RingIsValid r
      → IsDrainable (some finite) r.consumer.plc_positions
      → RingIsValid (drain_finite r finite).1
  unfolding drain_finite
  drain_finite-RingIsValid r finite v few =
      drain_finite_at-RingIsValid r finite _ r.consumer.plc v refl few
