-- ===== src/Ring/Consumer/Filled.antt =====
-- `refill_output` of src/ring.rs says `Ready` only with a sample in the cache, so that the caller's
-- `output_pending -= 1` cannot underflow.
use rate_adjusting_pcm_ring.Common.{
  ℕ, zero, suc, ◌-◌, ◌≢◌, inl, inr, List, Option, none, some, Bool, true, false, ◌&&◌, Bool-cases,
  ◌==◌, ==_iff, if◌then◌else◌,
}
use rate_adjusting_pcm_ring.Common.Int.{ℤ, ltb_ℤ}
use rate_adjusting_pcm_ring.Float.{Single, Double}
use rate_adjusting_pcm_ring.Ring.State.{
  Ring, Shared, SourceSample, ConsumerState, GapSpan, RefillResult, consumer_take_source_sample,
}
use rate_adjusting_pcm_ring.Ring.Consumer.Monad.{
  Outcome, continue, stop, Step, ◌>>=◌, modify, or_return, result_of,
}
use rate_adjusting_pcm_ring.Ring.Consumer.Input.{
  accept_stamp, gaps_after, append_input, admit, fill_round, fill_from, make_input_space,
  desired_input,
}
use rate_adjusting_pcm_ring.Ring.Consumer.Refill.{
  check_ready, check_idle, query_queued, query_delay, apply_gaps, map_gaps, source_position,
  take_counts, describe_cache, locate_cache, settle, pad_input, gather, steer, run_converter,
  finish_conversion, convert_at, convert, convert_steered, convert_gathered, refill_steps,
  refill_output, is_empty,
}

module _ {F R C : Type 0} where
  -- The caller may take a sample from the cache.
  abbrev pub IsFilled : RefillResult → Ring F R C → Type 0
  IsFilled RefillResult.ready r = r.consumer.output_pending ≢ 0
  IsFilled RefillResult.starved r = Unit {0}
  IsFilled RefillResult.adapter_error r = Unit {0}

  abbrev Fills : {A : Type 0} → Outcome A × Ring F R C → Type 0
  Fills (continue a, r) = Unit {0}
  Fills (stop x, r) = IsFilled x r

  >>=-Fills :
      {A B : Type 0} (m : Step (Ring F R C) A) (f : A → Step (Ring F R C) B) (r : Ring F R C)
      → Fills (m r)
      → ((a : A) (r' : Ring F R C) → Fills (f a r'))
      → Fills ((m >>= f) r)
  >>=-Fills {A} {B} m f r h rest = through (m r) h
    where
      through :
          (q : Outcome A × Ring F R C)
          → Fills q
          → Fills (elim q.0 as (λ x. Outcome B × Ring F R C) [
            | continue a ↦ f a q.1
            | stop e ↦ (stop e, q.1)
          ])
      through (continue a, r') h = rest a r'
      through (stop e, r') h = h

  or_return-Fills :
      {A : Type 0} (o : Option A) (r : Ring F R C)
      → Fills (or_return RefillResult.adapter_error o r)
  or_return-Fills none r = tt
  or_return-Fills (some a) r = tt

  check_ready-Fills : (r : Ring F R C) → Fills (check_ready r)
  unfolding check_ready
  check_ready-Fills r = elim (Bool-cases r.consumer.reset_failed) [
    | inl e ↦ rw e tt
    | inr e ↦ elim (Bool-cases (r.consumer.output_pending == 0)) [
      | inl z ↦ rw (e, z) tt
      | inr z ↦ rw (e, z) (λ p. cc (z, (==_iff r.consumer.output_pending 0).1 p))
    ]
  ]

  check_idle-Fills : (r : Ring F R C) → Fills (check_idle r)
  unfolding check_idle
  check_idle-Fills r =
      elim (Bool-cases (r.consumer.input_pending == 0 && r.consumer.zero_progress)) [
        | inl e ↦ rw e tt
        | inr e ↦ rw e tt
      ]

  query_queued-Fills : (r : Ring F R C) → Fills (query_queued r)
  unfolding query_queued
  query_queued-Fills r = or_return-Fills _ _

  query_delay-Fills : (r : Ring F R C) → Fills (query_delay r)
  unfolding query_delay
  query_delay-Fills r = or_return-Fills _ _

  map_gaps-Fills : (r : Ring F R C) → Fills (map_gaps r)
  unfolding map_gaps apply_gaps
  map_gaps-Fills r = elim (Bool-cases (is_empty r.consumer.gaps)) [
    | inl e ↦ rw e tt
    | inr e ↦ rw e (>>=-Fills query_delay apply_gaps _ (query_delay-Fills _) (λ delay r'. tt))
  ]

  describe_cache-Fills :
      (start : ℤ) (n delay : ℕ) (r : Ring F R C) → Fills (describe_cache start n delay r)
  unfolding describe_cache
  describe_cache-Fills start n delay r =
      elim (Bool-cases (ltb_ℤ (source_position r.consumer delay) start)) [
        | inl e ↦ rw e tt
        | inr e ↦ rw e tt
      ]

  locate_cache-Fills : (start : ℤ) (n : ℕ) (r : Ring F R C) → Fills (locate_cache start n r)
  unfolding locate_cache
  locate_cache-Fills start zero r = tt
  locate_cache-Fills start (suc n) r =
      >>=-Fills query_delay (describe_cache start (suc n)) r (query_delay-Fills r)
        (describe_cache-Fills start (suc n))

  settle-Fills : (used generated : ℕ) (r : Ring F R C) → Fills (settle used generated r)
  unfolding settle
  settle-Fills used generated r = elim (Bool-cases (generated == 0)) [
    | inl e ↦ rw e (nothing (used == 0 && r.consumer.input_pending == r.shared.capacity) _)
    | inr e ↦ rw e (λ p. cc (e, (==_iff generated 0).1 p))
  ]
    where
      nothing :
          (b : Bool) (r' : Ring F R C)
          → IsFilled (if b then RefillResult.adapter_error else RefillResult.starved) r'
      nothing true r' = tt
      nothing false r' = tt

  admit-Fills : (sample : SourceSample F) (r : Ring F R C) → Fills (admit sample r)
  unfolding admit
  admit-Fills sample r = through (accept_stamp r.consumer sample.stamp)
    where
      admitted :
          (c : ConsumerState F R C) (gaps : Option (List GapSpan))
          → Fills (elim gaps as (λ _. Outcome (Unit {0}) × Ring F R C) [
            | none ↦ (stop RefillResult.adapter_error, record r { consumer = c })
            | some gaps ↦ (continue tt, record r { consumer = append_input c sample.pcm gaps })
          ])
      admitted c none = tt
      admitted c (some gaps) = tt

      through :
          (q : Bool × ConsumerState F R C)
          → Fills (
              if q.0
              then elim (gaps_after q.1 sample.missing) [
                | none ↦ (stop RefillResult.adapter_error, record r { consumer = q.1 })
                | some gaps ↦
                    (continue tt, record r { consumer = append_input q.1 sample.pcm gaps })
              ]
              else (stop RefillResult.adapter_error, record r { consumer = q.1 }))
      through (true, c) = admitted c (gaps_after c sample.missing)
      through (false, c) = tt

module _ {F R C : Type 0} ⦃double : Double R⦄ where
  run_converter-Fills : (r : Ring F R C) → Fills (run_converter r)
  unfolding run_converter
  run_converter-Fills r =
      >>=-Fills (or_return RefillResult.adapter_error _) take_counts _ (or_return-Fills _ _)
        (λ counts r'. tt)

  convert-Fills : (r : Ring F R C) → Fills (convert r)
  unfolding convert convert_at finish_conversion
  convert-Fills r = >>=-Fills query_delay convert_at r (query_delay-Fills r) λ delay r1.
      >>=-Fills run_converter (finish_conversion (source_position r1.consumer delay)) r1
        (run_converter-Fills r1)
        λ counts r2.
          >>=-Fills (locate_cache (source_position r1.consumer delay) counts.1)
            (λ _. settle counts.0 counts.1) r2 (locate_cache-Fills _ counts.1 r2)
            (λ _ r3. settle-Fills counts.0 counts.1 r3)

module _ {F R C : Type 0} ⦃single : Single F⦄ where
  fill_from-Fills : (n : ℕ) (r : Ring F R C) → Fills (fill_from n r)
  unfolding fill_from fill_round
  fill_from-Fills zero r = tt
  fill_from-Fills (suc n) r =
      through r.consumer.input_padding (consumer_take_source_sample r.shared).0
        (consumer_take_source_sample r.shared).1 (fill_from n) r (fill_from-Fills n)
    where
      through :
          (padding : Bool) (taken : Option (SourceSample F)) (shared : Shared F)
          (rest : Step (Ring F R C) (Unit {0})) (r : Ring F R C)
          → ((r' : Ring F R C) → Fills (rest r'))
          → Fills (fill_round padding taken shared rest r)
      through true taken shared rest r ih = tt
      through false none shared rest r ih = tt
      through false (some sample) shared rest r ih =
          >>=-Fills (admit sample) (λ _. rest) _ (admit-Fills sample _) (λ _ r'. ih r')

  gather-Fills : (r : Ring F R C) → Fills (gather r)
  unfolding gather
  gather-Fills r =
      let additional = desired_input r - r.consumer.input_pending in
      let spaced : Ring F R C = record r {
        consumer = make_input_space r.consumer additional r.shared.capacity;
      } in
      >>=-Fills (fill_from additional) (λ _. modify pad_input) spaced
        (fill_from-Fills additional spaced) (λ _ r'. tt)

module _ {F R C : Type 0} ⦃single : Single F⦄ ⦃double : Double R⦄ where
  convert_gathered-Fills : (target : ℕ) (r : Ring F R C) → Fills (convert_gathered target r)
  unfolding convert_gathered convert_steered
  convert_gathered-Fills target r =
      >>=-Fills check_idle (λ _. query_queued >>= convert_steered target) r (check_idle-Fills r)
        λ _ r1.
          >>=-Fills query_queued (convert_steered target) r1 (query_queued-Fills r1) λ queued r2.
            >>=-Fills map_gaps (λ _. convert) (steer target queued r2)
              (map_gaps-Fills (steer target queued r2)) (λ _ r3. convert-Fills r3)

  -- A refill answers `Ready` only when the cache then holds a sample.
  pub refill_output-IsFilled :
      (target : ℕ) (r : Ring F R C)
      → let (result, r') = refill_output target r in IsFilled result r'
  unfolding refill_output refill_steps
  refill_output-IsFilled target r = result_of_filled (refill_steps target r) (
      >>=-Fills check_ready (λ _. gather >>= λ _. convert_gathered target) r (check_ready-Fills r)
        λ _ r1.
          >>=-Fills gather (λ _. convert_gathered target) r1 (gather-Fills r1)
            (λ _ r2. convert_gathered-Fills target r2))
    where
      result_of_filled :
          (o : Outcome (Unit {0}) × Ring F R C) → Fills o → IsFilled (result_of o).0 (result_of o).1
      result_of_filled (continue a, s) h = tt
      result_of_filled (stop x, s) h = h
