-- ===== src/Ring/Consumer/Finite.antt =====
-- The finite bursts of src/ring.rs, and what `consumer_render_sample` does around a conversion. A
-- rendered sample is the value, whether it is real, and whether the adapter failed.
use rate_adjusting_pcm_ring.Common.{
  ℕ, zero, suc, ◌+◌, ◌-◌, ◌/◌, ◌%◌, ◌^◌, Option, none, some, Bool, true, false, not, ◌&&◌, ◌||◌,
  length, get_or, set, ◌==◌, if◌then◌else◌,
}
use rate_adjusting_pcm_ring.Float.{Single, Double}
use rate_adjusting_pcm_ring.Mute.Types.{Position}
use rate_adjusting_pcm_ring.Mute.Mailbox
use rate_adjusting_pcm_ring.Mute.History.{insert, muted, retire}
use rate_adjusting_pcm_ring.Plc.State.{Plc}
use rate_adjusting_pcm_ring.Plc.Process.{drain_sample}
use rate_adjusting_pcm_ring.Ring.State.{
  Ring, Shared, ConsumerState, Finite, RefillResult, available, count_adapter_error,
}
use rate_adjusting_pcm_ring.Ring.Finish.{FinishStatus, is_pending, finish_word}
use rate_adjusting_pcm_ring.Ring.Consumer.Input.{is_some}
use rate_adjusting_pcm_ring.Ring.Consumer.Refill.{is_empty}
use rate_adjusting_pcm_ring.Ring.Consumer.Cache.{reset, record_shortfall}

abbrev pub Rendered : Type 0 → Type 0
Rendered F = F × Bool × Bool

-- `fetch_add(1)` on a `u64`.
abbrev pub next_serial : ℕ → ℕ
next_serial n = (n + 1) % 2 ^ 64

abbrev pub is_ready : RefillResult → Bool
is_ready RefillResult.ready = true
is_ready RefillResult.starved = false
is_ready RefillResult.adapter_error = false

abbrev pub is_failed : RefillResult → Bool
is_failed RefillResult.adapter_error = true
is_failed RefillResult.starved = false
is_failed RefillResult.ready = false

-- `get_or_insert` of the lookahead's length.
abbrev pub remaining_of : Option ℕ → ℕ → ℕ
remaining_of none all = all
remaining_of (some n) all = n

module _ {F : Type 0} where
  -- A failed burst's unread suffix and mutes are discarded.
  unfoldable pub discard_failed : Bool → Shared F → Shared F
  unfolding count_adapter_error
  discard_failed true s =
      count_adapter_error
        (record s { read = s.written; mute_mailbox = Mailbox.reset s.mute_mailbox })
  discard_failed false s = s

module _ {F R C : Type 0} where
  -- The consumer learns of a finish request: its end is behind all accepted source samples.
  unfoldable pub note_finish : Ring F R C → Ring F R C
  unfolding available
  note_finish r =
      if is_pending r.shared.finish && not (is_some r.consumer.finite)
      then record r {
        consumer = record r.consumer {
          finite = some (record {
            token = r.shared.finish / 4;
            end = r.consumer.source_taken + available r.shared;
            plc_remaining = none;
          });
          quiet = false;
        };
      }
      else r

  -- At most so many intervals go from the mailbox to the history.
  unfoldable pub drain_mutes : ℕ → Ring F R C → Ring F R C
  drain_mutes zero r = r
  drain_mutes (suc n) r =
      let (popped, mailbox) = Mailbox.pop r.shared.mute_mailbox in
      elim popped [
        | none ↦ r
        | some interval ↦
            let (history, accepted) = insert r.consumer.mute_history interval in
            drain_mutes n (record {
              shared = record r.shared { mute_mailbox = mailbox };
              consumer = record r.consumer {
                mute_history = history;
                mute_fault = if accepted then r.consumer.mute_fault else true;
              };
            })
      ]

  -- The cached sample is consumed.
  unfoldable pub advance_cache : ConsumerState F R C → ConsumerState F R C
  advance_cache c = record c {
    output_offset = if c.output_pending == 1 then 0 else c.output_offset + 1;
    output_pending = c.output_pending - 1;
  }

  -- The position that leaves the optional lookahead, and the lookahead with the new one in its place.
  unfoldable pub delay_position :
      ConsumerState F R C → Option Position → Option Position × ConsumerState F R C
  delay_position c position = if is_empty c.plc_positions then (position, c) else (
    get_or c.plc_positions c.plc_position none,
    record c {
      plc_positions = set c.plc_positions c.plc_position position;
      plc_position = (c.plc_position + 1) % length c.plc_positions;
    },
  )

module _ {F R C : Type 0} ⦃single : Single F⦄ ⦃double : Double R⦄ where
  -- The return for a mute fault.
  unfoldable pub report_fault : Ring F R C → Rendered F × Ring F R C
  unfolding count_adapter_error
  report_fault r = ((single.zero, false, true), record r { shared = count_adapter_error r.shared })

  unfoldable pub complete_finite : Ring F R C → ℕ → Bool → Rendered F × Ring F R C
  unfolding reset record_shortfall discard_failed finish_word
  complete_finite r token adapter_failed =
      let (done, c) = reset r.consumer in
      let failed = not done || adapter_failed in
      let s1 =
        record_shortfall double
          (record r.shared { reset_serial = next_serial r.shared.reset_serial }) false in
      let status = if failed then FinishStatus.adapter_error else FinishStatus.drained in
      (
        (single.zero, false, failed),
        record {
          shared = record (discard_failed failed s1) { finish = finish_word token status };
          consumer = record c { quiet = true };
        },
      )

  -- One retained lookahead sample; `left` of them follow.
  unfoldable pub drain_lookahead : Ring F R C → Finite → ℕ → Plc F → Rendered F × Ring F R C
  unfolding drain_sample
  drain_lookahead r finite left plc =
      let c = r.consumer in
      let (out, plc') = drain_sample plc in
      let position = get_or c.plc_positions c.plc_position none in
      let output = if muted c.mute_history position then single.zero else out.0 in
      (
        (output, out.1, false),
        record r {
          consumer = record c {
            finite = some (record finite { plc_remaining = some left });
            plc = some plc';
            plc_position = (c.plc_position + 1) % length c.plc_positions;
            mute_history = retire c.mute_history position;
          };
        },
      )

  -- `drain_finite` at the outstanding burst. The source unwraps `plc` here; there is one whenever
  -- lookahead remains.
  unfoldable pub drain_finite_at :
      Ring F R C → Finite → ℕ → Option (Plc F) → Rendered F × Ring F R C
  unfolding complete_finite drain_lookahead
  drain_finite_at r finite zero plc = complete_finite r finite.token false
  drain_finite_at r finite (suc left) none = complete_finite r finite.token false
  drain_finite_at r finite (suc left) (some plc) = drain_lookahead r finite left plc

  unfoldable pub drain_finite : Ring F R C → Finite → Rendered F × Ring F R C
  unfolding drain_finite_at
  drain_finite r finite =
      drain_finite_at r finite (remaining_of finite.plc_remaining (length r.consumer.plc_positions))
        r.consumer.plc
