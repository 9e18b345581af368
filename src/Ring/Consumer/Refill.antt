-- ===== src/Ring/Consumer/Refill.antt =====
-- `refill_output` of src/ring.rs: one bounded conversion into the consumer's cache.
use rate_adjusting_pcm_ring.Common.{
  ◌^◌, ℕ, zero, suc, ◌+◌, ◌-◌, ◌*◌, ◌/◌, List, [], ◌∷◌, ◌++◌, Bool, true, false, not, ◌&&◌,
  replicate, take, drop, ltb, leb, ◌==◌, if◌then◌else◌, sat_add, sat_mul, div_ceil,
}
use rate_adjusting_pcm_ring.Common.Int.{ℤ, pos, ◌-ℤ◌, ltb_ℤ}
use rate_adjusting_pcm_ring.Float.{Single, Double}
use rate_adjusting_pcm_ring.Adapter
use rate_adjusting_pcm_ring.Ring.Settings.{minimum_ratio, maximum_ratio, nominal_ratio}
use rate_adjusting_pcm_ring.Ring.State.{Ring, ConsumerState, GapSpan, RefillResult, available}
use rate_adjusting_pcm_ring.Ring.Consumer.Monad.{
  continue, stop, Step, ◌>>=◌, ◌>>◌, modify, or_return, result_of,
}
use rate_adjusting_pcm_ring.Ring.Consumer.Input.{
  is_some, fill_from, make_input_space, desired_input, quantum,
}

-- Billionths of a source frame.
abbrev pub billion : ℕ
billion = 1_000_000_000

-- The integer low-pass filter of the occupancy: a 128th of the signed difference, rounded to zero.
unfoldable pub smooth : ℕ → ℕ → ℕ
smooth filtered occupancy =
    if filtered == 0
    then occupancy
    else if leb filtered occupancy
    then filtered + (occupancy - filtered) / 128
    else filtered - (filtered - occupancy) / 128

-- `while gaps.front() is passed { pop_front }`
unfoldable pub drop_passed : ℕ → List GapSpan → List GapSpan
drop_passed position [] = []
drop_passed position (x ∷ xs) =
    let rest = drop_passed position xs in if leb x.end position then rest else x ∷ xs

unfoldable pub starts_by : ℕ → List GapSpan → Bool
starts_by position [] = false
starts_by position (x ∷ xs) = leb x.start position

abbrev pub is_empty {ℓ} : {A : Type ℓ} → List A → Bool
is_empty [] = true
is_empty (x ∷ xs) = false

module _ {F R C : Type 0} where
  -- Early returns before any work.
  unfoldable pub check_ready : Step (Ring F R C) (Unit {0})
  check_ready r =
      if r.consumer.reset_failed
      then (stop RefillResult.adapter_error, r)
      else if r.consumer.output_pending == 0
      then (continue tt, r)
      else (stop RefillResult.ready, r)

  unfoldable pub check_idle : Step (Ring F R C) (Unit {0})
  check_idle r =
      if r.consumer.input_pending == 0 && r.consumer.zero_progress
      then (stop RefillResult.starved, r)
      else (continue tt, r)

  unfoldable pub query_queued : Step (Ring F R C) ℕ
  query_queued r =
      let (frames, converter) = Adapter.queued_input r.consumer.converter in
      or_return RefillResult.adapter_error frames
        (record r { consumer = record r.consumer { converter = converter } })

  unfoldable pub query_delay : Step (Ring F R C) ℕ
  query_delay r =
      let (delay, converter) = Adapter.input_delay r.consumer.converter in
      or_return RefillResult.adapter_error delay
        (record r { consumer = record r.consumer { converter = converter } })

  -- The position of the converter's next output, in source frames, against the gaps.
  unfoldable pub locate_gaps : ConsumerState F R C → ℕ → ConsumerState F R C
  unfolding drop_passed starts_by
  locate_gaps c delay =
      let accepted = c.source_accepted + c.padding_accepted in
      let frames = div_ceil delay billion in
      let gaps = drop_passed (accepted - frames) c.gaps in
      if ltb accepted frames
      then c
      else record c { gaps = gaps; output_missing = starts_by (accepted - frames) gaps }

  unfoldable pub apply_gaps : ℕ → Step (Ring F R C) (Unit {0})
  unfolding locate_gaps
  apply_gaps delay r = (continue tt, record r { consumer = locate_gaps r.consumer delay })

  unfoldable pub map_gaps : Step (Ring F R C) (Unit {0})
  unfolding apply_gaps query_delay
  map_gaps r0 =
      let r = record r0 { consumer = record r0.consumer { output_missing = false } } in
      if is_empty r.consumer.gaps then (continue tt, r) else (query_delay >>= apply_gaps) r

  -- The source position that the converter has reached, in billionths of a frame.
  unfoldable pub source_position : ConsumerState F R C → ℕ → ℤ
  unfolding ◌-ℤ◌
  source_position c delay = pos ((c.source_accepted + c.padding_accepted) * billion) -ℤ pos delay

  -- The bookkeeping of a conversion that used and generated so much.
  unfoldable pub consume_input : ConsumerState F R C → ℕ → ConsumerState F R C
  consume_input c used = record c {
    input_offset = c.input_offset + used;
    input_pending = c.input_pending - used;
    padding_accepted = if c.input_padding then c.padding_accepted + used else c.padding_accepted;
    source_accepted = if c.input_padding then c.source_accepted else c.source_accepted + used;
  }

  -- The slice of pending input.
  unfoldable pub pending_input : ConsumerState F R C → List F
  pending_input c = take c.input_pending (drop c.input_offset c.input)

  abbrev pub take_counts : ℕ × ℕ → Step (Ring F R C) (ℕ × ℕ)
  take_counts counts r =
      (continue counts, record r { consumer = consume_input r.consumer counts.0 })

  -- Where the new cache of `n` samples starts and ends; a converter that went backwards is a mute fault.
  unfoldable pub describe_cache : ℤ → ℕ → ℕ → Step (Ring F R C) (Unit {0})
  unfolding source_position
  describe_cache start n delay r =
      let end = source_position r.consumer delay in
      let located = record r.consumer { cache_start = start; cache_end = end } in
      if ltb_ℤ end start
      then (
        stop RefillResult.adapter_error,
        record r { consumer = record located { mute_fault = true } },
      )
      else (continue tt, record r { consumer = record located { cache_count = n } })

  unfoldable pub locate_cache : ℤ → ℕ → Step (Ring F R C) (Unit {0})
  unfolding describe_cache query_delay
  locate_cache start zero r = (continue tt, r)
  locate_cache start (suc n) r = (query_delay >>= describe_cache start (suc n)) r

  -- The end of `refill_output`.
  unfoldable pub settle : ℕ → ℕ → Step (Ring F R C) (Unit {0})
  settle used generated r =
      let c = record r.consumer {
        input_offset = if r.consumer.input_pending == 0 then 0 else r.consumer.input_offset;
        output_offset = 0;
        output_pending = generated;
      } in
      if generated == 0
      then (
        stop (
            if used == 0 && c.input_pending == r.shared.capacity
            then RefillResult.adapter_error
            else RefillResult.starved),
        record r { consumer = record c { zero_progress = used == 0 } },
      )
      else (stop RefillResult.ready, record r { consumer = record c { zero_progress = false } })

module _ {F R C : Type 0} ⦃single : Single F⦄ where
  -- A finite tail is extended by zeros.
  unfoldable pub pad_input : Ring F R C → Ring F R C
  pad_input r =
      let c = r.consumer in
      if c.input_pending == 0 && is_some c.finite
      then record r {
        consumer = record c {
          input = replicate (quantum r) single.zero ++ drop (quantum r) c.input;
          input_offset = 0;
          input_pending = quantum r;
          input_padding = true;
        };
      }
      else r

  unfoldable pub gather : Step (Ring F R C) (Unit {0})
  unfolding desired_input make_input_space fill_from pad_input
  gather r =
      let additional = desired_input r - r.consumer.input_pending in
      (fill_from additional >>= λ _. modify pad_input)
        (record r { consumer = make_input_space r.consumer additional r.shared.capacity })

module _ {R : Type 0} ⦃double : Double R⦄ where
  -- The relative occupancy error of the controller.
  unfoldable pub occupancy_error : ℕ → ℕ → R
  occupancy_error occupancy_milli target =
      let goal = double.mul (double.of_count target) (double.of_count 1000) in
      let one = double.of_count 1 in
      if target == 0
      then double.of_count 0
      else double.clamp (double.div (double.sub (double.of_count occupancy_milli) goal) goal)
          (double.sub (double.of_count 0) one) one

  unfoldable pub next_ratio : R → R → R → R
  next_ratio ratio nominal error =
      let one = double.of_count 1 in
      let thousandth = double.div one (double.of_count 1000) in
      let desired =
        double.clamp (double.mul nominal (double.sub one (double.mul error thousandth)))
          minimum_ratio maximum_ratio in
      double.clamp
        (if double.is_zero ratio
          then nominal
          else double.add ratio (double.div (double.sub desired ratio) (double.of_count 512)))
        minimum_ratio maximum_ratio

  unfoldable pub correction_ppm : R → R → ℤ
  correction_ppm ratio nominal = double.to_i32 (
      double.clamp
        (double.round (
          double.mul (double.sub (double.div ratio nominal) (double.of_count 1))
            (double.of_count 1_000_000)))
        (double.sub (double.of_count 0) (double.of_count (2 ^ 31))) (double.of_count (2 ^ 31 - 1)))

module _ {F R C : Type 0} where
  unfoldable pub occupancy_milli : Ring F R C → ℕ → ℕ
  occupancy_milli r queued =
      sat_mul (sat_add (sat_add (available r.shared) r.consumer.input_pending) queued) 1000

module _ {F R C : Type 0} ⦃double : Double R⦄ where
  -- The occupancy controller.
  unfoldable pub steer : ℕ → ℕ → Ring F R C → Ring F R C
  unfolding occupancy_milli smooth next_ratio occupancy_error correction_ppm
  steer target queued r =
      let c = r.consumer in
      let nominal : R = nominal_ratio r.shared.output_rate_hz r.shared.input_rate_hz in
      let occupancy = occupancy_milli r queued in
      let filtered = smooth c.occupancy_milli occupancy in
      let ratio = next_ratio c.ratio nominal (occupancy_error filtered target) in
      if not (occupancy == 0) && not (is_some c.finite)
      then record {
        shared = record r.shared {
          filtered_occupancy_milli = filtered;
          ratio_correction_ppm = correction_ppm ratio nominal;
        };
        consumer = record c { occupancy_milli = filtered; ratio = ratio };
      }
      else record r {
        consumer = record c { ratio = if double.is_zero c.ratio then nominal else c.ratio };
      }

  unfoldable pub run_converter : Step (Ring F R C) (ℕ × ℕ)
  unfolding consume_input pending_input
  run_converter r =
      let c = r.consumer in
      let count = if is_empty c.gaps then quantum r else 1 in
      let (done, output, converter) =
        Adapter.process c.converter (pending_input c) c.output count c.ratio in
      (or_return RefillResult.adapter_error done >>= take_counts)
        (record r { consumer = record c { converter = converter; output = output } })

  -- The conversion from a source position on.
  unfoldable pub finish_conversion : ℤ → ℕ × ℕ → Step (Ring F R C) (Unit {0})
  unfolding locate_cache settle
  finish_conversion start counts = locate_cache start counts.1 >>= λ _. settle counts.0 counts.1

  unfoldable pub convert_at : ℕ → Step (Ring F R C) (Unit {0})
  unfolding run_converter finish_conversion source_position
  convert_at delay r = (run_converter >>= finish_conversion (source_position r.consumer delay)) r

  unfoldable pub convert : Step (Ring F R C) (Unit {0})
  unfolding query_delay convert_at
  convert = query_delay >>= convert_at

module _ {F R C : Type 0} ⦃single : Single F⦄ ⦃double : Double R⦄ where
  -- The conversion at a ratio for so many frames queued in the converter.
  unfoldable pub convert_steered : ℕ → ℕ → Step (Ring F R C) (Unit {0})
  unfolding steer map_gaps convert
  convert_steered target queued = do modify (steer target queued); map_gaps; convert

  -- What a refill does with its input gathered.
  unfoldable pub convert_gathered : ℕ → Step (Ring F R C) (Unit {0})
  unfolding check_idle query_queued convert_steered
  convert_gathered target = do check_idle; queued ← query_queued; convert_steered target queued

  unfoldable pub refill_steps : ℕ → Step (Ring F R C) (Unit {0})
  unfolding check_ready gather convert_gathered
  refill_steps target = do check_ready; gather; convert_gathered target

  -- The argument is the target occupancy. The last step always returns.
  unfoldable pub refill_output : ℕ → Ring F R C → RefillResult × Ring F R C
  unfolding refill_steps
  refill_output target r = result_of (refill_steps target r)
