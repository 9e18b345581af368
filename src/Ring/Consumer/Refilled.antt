-- ===== src/Ring/Consumer/Refilled.antt =====
-- `refill_output` of src/ring.rs keeps the ring valid: the whole of it.
use rate_adjusting_pcm_ring.Common.{
  ℕ, ◌+◌, ◌-◌, ◌≤◌, ◌≡◌, inl, inr, refl, ap, ◌∙◌, Option, none, some, Bool, true, false, not, ◌&&◌,
  Bool-cases, arith, length, length-append, length-take, length-drop, length-replicate, replicate,
  drop, ◌==◌, if◌then◌else◌,
}
use rate_adjusting_pcm_ring.Common.Int.{ℤ}
use rate_adjusting_pcm_ring.Float.{Single, Double}
use rate_adjusting_pcm_ring.Adapter
use rate_adjusting_pcm_ring.Adapter.Bounds.{process_bounds}
use rate_adjusting_pcm_ring.Ring.Settings.{converter_quantum}
use rate_adjusting_pcm_ring.Ring.State.{Ring, ConsumerState, RefillResult}
use rate_adjusting_pcm_ring.Ring.Consumer.Monad.{
  Outcome, continue, stop, ◌>>=◌, modify, or_return, result_of, >>=_inv,
}
use rate_adjusting_pcm_ring.Ring.Consumer.Input.{
  is_some, fill_from, make_input_space, desired_input, quantum,
}
use rate_adjusting_pcm_ring.Ring.Consumer.Invariant.{
  IsSound, RingIsValid, output_pending-make_input_space, pending_source, make_input_space-IsSound,
  fill_from-RingIsValid, output_pending-fill_from,
}
use rate_adjusting_pcm_ring.Ring.Consumer.Refill.{
  check_ready, check_idle, occupancy_milli, query_queued, query_delay, map_gaps, consume_input,
  locate_cache, settle, pad_input, gather, steer, run_converter, convert, convert_steered,
  convert_gathered, refill_steps, refill_output, is_empty, source_position, pending_input,
  take_counts, finish_conversion, convert_at,
}
use rate_adjusting_pcm_ring.Ring.Consumer.Convert.{
  IsRefilling, query_queued-IsRefilling, query_delay-IsRefilling, map_gaps-IsRefilling,
  check_idle-IsRefilling, consume_input-IsSound, locate_cache-IsRefilling, cache_count-locate_cache,
  settle-RingIsValid,
}

-- What `run_converter` leaves: a refill in progress, and no more output than the cache holds.
record Converted {F R C : Type 0} (out : Outcome (ℕ × ℕ) × Ring F R C) : Type 0 where
  refilling : IsRefilling out.1
  bounded : (counts : ℕ × ℕ) → out.0 ≡ continue counts → counts.1 ≤ converter_quantum

module _ {F R C : Type 0} where
  length-pending_input :
      (c : ConsumerState F R C) (capacity : ℕ)
      → IsSound c capacity
      → length (pending_input c) ≡ c.input_pending
  unfolding pending_input
  length-pending_input c capacity v =
      let fits = v.input_fits in
      let size = v.input_size in
      length-take c.input_pending (drop c.input_offset c.input)
      ∙ omega (arith, length-drop c.input_offset c.input)

  taken-Converted :
      (r : Ring F R C) (done : Option (ℕ × ℕ))
      → IsRefilling r
      → ((used generated : ℕ)
          → done ≡ some (used, generated)
          → (used ≤ r.consumer.input_pending) × (generated ≤ converter_quantum))
      → Converted ((or_return RefillResult.adapter_error done >>= take_counts) r)
  taken-Converted r none v h = record { refilling = v; bounded = λ counts e. cc }
  taken-Converted r (some (used, generated)) v h =
      let (fewer, small) = h used generated refl in
      record {
        refilling = record {
          valid = record {
            shared = v.valid.shared;
            consumer =
                consume_input-IsSound r.consumer r.shared.capacity used v.valid.consumer fewer;
          };
          idle = unfold consume_input in v.idle;
        };
        bounded = λ counts e. ground arith;
      }

module _ {F R C : Type 0} ⦃double : Double R⦄ where
  run_converter-Converted : (r : Ring F R C) → IsRefilling r → Converted (run_converter r)
  unfolding run_converter
  run_converter-Converted r v =
      let c = r.consumer in
      let s = v.valid.consumer in
      let size = s.output_size in
      let at_least = v.valid.shared.at_least in
      let count : ℕ = if is_empty c.gaps then quantum r else 1 in
      let small : count ≤ converter_quantum = one_or (is_empty c.gaps) (omega arith) in
      let fits : count ≤ length c.output = omega arith in
      let bounds = process_bounds c.converter (pending_input c) c.output count c.ratio fits in
      let p = Adapter.process c.converter (pending_input c) c.output count c.ratio in
      taken-Converted (record r { consumer = record c { converter = p.2; output = p.1 } }) p.0
        (record {
          valid = record {
            shared = v.valid.shared;
            consumer = record {
              input_size = s.input_size;
              output_size = bounds.0 ∙ s.output_size;
              input_fits = s.input_fits;
              output_fits = s.output_fits;
              cached = s.cached;
              accounted = s.accounted;
              gaps_fit = s.gaps_fit;
              history = s.history;
              drainable = s.drainable;
              concealed = s.concealed;
            };
          };
          idle = v.idle;
        })
        (λ used generated e.
          let b = bounds.1 used generated e in
          omega (arith, length-pending_input c r.shared.capacity s, b))
    where
      one_or :
          (b : Bool)
          → quantum r ≤ converter_quantum
          → (if b then quantum r else 1) ≤ converter_quantum
      one_or true h = h
      one_or false h = omega arith

  finish_conversion-RingIsValid :
      (start : ℤ) (used generated : ℕ) (r : Ring F R C)
      → IsRefilling r
      → generated ≤ converter_quantum
      → RingIsValid (finish_conversion start (used, generated) r).1
  unfolding finish_conversion
  finish_conversion-RingIsValid start used generated r v le =
      let located = locate_cache-IsRefilling start generated r v in
      >>=_inv RingIsValid (locate_cache start generated) (λ _. settle used generated) r
        located.valid
        (λ _ e.
          settle-RingIsValid used generated (locate_cache start generated r).1 located le
            (cache_count-locate_cache start generated r (only_tt e)))
    where
      only_tt : {u : Unit {0}} {o : Outcome (Unit {0})} → o ≡ continue u → o ≡ continue tt
      only_tt e = e

  convert-RingIsValid : (r : Ring F R C) → IsRefilling r → RingIsValid (convert r).1
  unfolding convert convert_at
  convert-RingIsValid r v =
      let v1 = query_delay-IsRefilling r v in
      >>=_inv RingIsValid query_delay convert_at r v1.valid (λ delay _.
        let r1 = (query_delay r).1 in
        let ran = run_converter-Converted r1 v1 in
        >>=_inv RingIsValid run_converter (finish_conversion (source_position r1.consumer delay)) r1
          ran.refilling.valid
          (λ counts e.
            finish_conversion-RingIsValid (source_position r1.consumer delay) counts.0 counts.1
              (run_converter r1).1 ran.refilling (ran.bounded counts e)))

module _ {F R C : Type 0} ⦃single : Single F⦄ where
  pad_input-IsRefilling : (r : Ring F R C) → IsRefilling r → IsRefilling (pad_input r)
  unfolding pad_input
  pad_input-IsRefilling r v =
      let c = r.consumer in
      let s = v.valid.consumer in
      let size = s.input_size in
      let zeros = length-replicate (quantum r) single.zero in
      let rest = length-drop (quantum r) c.input in
      elim (Bool-cases (c.input_pending == 0 && is_some c.finite)) [
        | inr e ↦ rw e v
        | inl e ↦
            let empty : c.input_pending ≡ 0 = ground arith in
            let before = s.accounted in
            rw e (record {
              valid = record {
                shared = v.valid.shared;
                consumer = record {
                  input_size =
                      length-append (replicate (quantum r) single.zero) (drop (quantum r) c.input)
                      ∙ omega arith;
                  output_size = s.output_size;
                  input_fits = omega arith;
                  output_fits = s.output_fits;
                  cached = s.cached;
                  accounted =
                      before ∙ ap (λ n. c.source_accepted + n) (nothing c.input_padding empty);
                  gaps_fit = s.gaps_fit;
                  history = s.history;
                  drainable = s.drainable;
                  concealed = s.concealed;
                };
              };
              idle = v.idle;
            })
      ]
    where
      nothing : (padding : Bool) {n : ℕ} → n ≡ 0 → pending_source padding n ≡ 0
      nothing true e = refl
      nothing false e = e

  -- The rounds that `gather` makes fit in the workspace.
  room_for_rounds :
      (r : Ring F R C)
      → RingIsValid r
      → r.consumer.input_pending + (desired_input r - r.consumer.input_pending) ≤ r.shared.capacity
  unfolding desired_input
  room_for_rounds r v =
      let fits = v.consumer.input_fits in
      elim (Bool-cases r.consumer.zero_progress) [
        | inl e ↦ rw e (omega arith)
        | inr e ↦ rw e (omega arith)
      ]

  gather-IsRefilling : (r : Ring F R C) → IsRefilling r → IsRefilling (gather r).1
  unfolding gather
  gather-IsRefilling r v =
      let additional : ℕ = desired_input r - r.consumer.input_pending in
      let at_most = v.valid.shared.at_most in
      let spaced =
        make_input_space-IsSound r.consumer additional r.shared.capacity v.valid.consumer
          (room_for_rounds r v.valid) (omega arith) in
      let r1 : Ring F R C = record r {
        consumer = make_input_space r.consumer additional r.shared.capacity;
      } in
      let v1 : RingIsValid r1 = record { shared = v.valid.shared; consumer = spaced.0 } in
      let filled : IsRefilling (fill_from additional r1).1 = record {
        valid = fill_from-RingIsValid additional r1 v1 (omega (arith, spaced));
        idle =
            output_pending-fill_from additional r1
            ∙ (output_pending-make_input_space r.consumer additional r.shared.capacity ∙ v.idle);
      } in
      >>=_inv IsRefilling (fill_from additional) (λ _. modify pad_input) r1 filled
        (λ _ e. pad_input-IsRefilling (fill_from additional r1).1 filled)

module _ {F R C : Type 0} ⦃single : Single F⦄ ⦃double : Double R⦄ where
  steer-IsRefilling :
      (target queued : ℕ) (r : Ring F R C) → IsRefilling r → IsRefilling (steer target queued r)
  unfolding steer
  steer-IsRefilling target queued r v =
      elim (Bool-cases (not (occupancy_milli r queued == 0) && not (is_some r.consumer.finite))) [
        | inl e ↦ rw e assumption
        | inr e ↦ rw e assumption
      ]

  convert_steered-RingIsValid :
      (target queued : ℕ) (r : Ring F R C)
      → IsRefilling r
      → RingIsValid (convert_steered target queued r).1
  unfolding convert_steered
  convert_steered-RingIsValid target queued r v =
      let r1 = steer target queued r in
      let v1 = steer-IsRefilling target queued r v in
      let v2 = map_gaps-IsRefilling r1 v1 in
      >>=_inv RingIsValid map_gaps (λ _. convert) r1 v2.valid
        (λ _ _. convert-RingIsValid (map_gaps r1).1 v2)

  convert_gathered-RingIsValid :
      (target : ℕ) (r : Ring F R C) → IsRefilling r → RingIsValid (convert_gathered target r).1
  unfolding convert_gathered
  convert_gathered-RingIsValid target r v =
      let v1 = check_idle-IsRefilling r v in
      let r1 = (check_idle r).1 in
      let v2 = query_queued-IsRefilling r1 v1 in
      >>=_inv RingIsValid check_idle (λ _. query_queued >>= convert_steered target) r v1.valid
        (λ _ _.
          >>=_inv RingIsValid query_queued (convert_steered target) r1 v2.valid
            (λ queued _. convert_steered-RingIsValid target queued (query_queued r1).1 v2))

  check_ready-RingIsValid : (r : Ring F R C) → RingIsValid r → RingIsValid (check_ready r).1
  unfolding check_ready
  check_ready-RingIsValid r v = ground arith

  -- Past the early returns the cache is empty.
  check_ready-IsRefilling :
      (r : Ring F R C)
      → RingIsValid r
      → (check_ready r).0 ≡ continue tt
      → IsRefilling (check_ready r).1
  unfolding check_ready
  check_ready-IsRefilling r v e =
      let idle : r.consumer.output_pending ≡ 0 = ground arith in ground arith

  result_of_state :
      (P : Ring F R C → Type 0) (o : Outcome (Unit {0}) × Ring F R C) → P o.1 → P (result_of o).1
  result_of_state P (continue _, s) h = h
  result_of_state P (stop r, s) h = h

  -- A refill keeps a valid ring valid on every path, whatever the adapter answers: on an early
  -- return, an adapter error, a starved conversion and a filled cache the workspace bounds hold,
  -- the input account is kept, the queue is valid, and the mute history is sorted.
  pub refill_output-RingIsValid :
      (target : ℕ) (r : Ring F R C) → RingIsValid r → RingIsValid (refill_output target r).1
  unfolding refill_output refill_steps
  refill_output-RingIsValid target r v = result_of_state RingIsValid (refill_steps target r) (
      >>=_inv RingIsValid check_ready (λ _. gather >>= λ _. convert_gathered target) r
        (check_ready-RingIsValid r v)
        (λ _ e.
          let r1 = (check_ready r).1 in
          let v1 = gather-IsRefilling r1 (check_ready-IsRefilling r v e) in
          >>=_inv RingIsValid gather (λ _. convert_gathered target) r1 v1.valid
            (λ _ _. convert_gathered-RingIsValid target (gather r1).1 v1)))
