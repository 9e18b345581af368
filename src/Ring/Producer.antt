-- ===== src/Ring/Producer.antt =====
-- The producer's operations of src/ring.rs. Each returns what the method returns and the shared state
-- that it leaves. `none` is `Err(())`.
pub mod Publish
pub mod Blocks
pub mod Tagged
pub mod Preserved
use rate_adjusting_pcm_ring.Common.{
  ℕ, zero, suc, ◌+◌, ◌-◌, ◌%◌, ◌≡◌, List, [], ◌∷◌, Option, none, some, Bool, true, false, not, ◌&&◌,
  ◌||◌, length, set, take, ltb, leb, ◌==◌, if◌then◌else◌, min, sat_add, u64_max,
}
use rate_adjusting_pcm_ring.Common.Cursor.{advance}
use rate_adjusting_pcm_ring.Float.{Single}
use rate_adjusting_pcm_ring.Mute.Types.{Span, Stamp, max_spans}
use rate_adjusting_pcm_ring.Mute.Mailbox.{free, publish}
use rate_adjusting_pcm_ring.Ring.State.{
  Shared, SourceSample, cursor_distance, available, count_discarded, canonicalize,
}
use rate_adjusting_pcm_ring.Ring.Finish.{finish_pending}

module _ {F : Type 0} where
  unfoldable pub sync_producer_epoch : Shared F → Shared F
  sync_producer_epoch s =
      if s.producer_epoch == s.reset_serial
      then s
      else record s { producer_stamp = none; producer_epoch = s.reset_serial }

  -- The slot write, and the store that publishes it.
  unfoldable pub store_slot : Shared F → SourceSample F → Shared F
  store_slot s sample = record s {
    storage = set s.storage (s.written % s.capacity) sample;
    written = advance s.capacity s.written;
  }

  -- The producer's optional stamp goes into the slot and moves on; it cannot pass `u64::MAX`.
  unfoldable pub publish_stamped : Shared F → SourceSample F → Option Stamp → Bool × Shared F
  unfolding store_slot
  publish_stamped s sample none = (true, store_slot s sample)
  publish_stamped s sample (some current) =
      if ltb current.source u64_max
      then (
        true,
        store_slot
            (record s { producer_stamp = some (record current { source = current.source + 1 }) })
            (record sample { stamp = some current }),
      )
      else (false, s)

  unfoldable pub producer_publish : Shared F → SourceSample F → Bool × Shared F
  unfolding sync_producer_epoch publish_stamped
  producer_publish s0 sample =
      let s = sync_producer_epoch s0 in
      if finish_pending s
      then (false, s)
      else if leb s.capacity (cursor_distance s s.written s.read)
      then (false, count_discarded s 1)
      else publish_stamped s sample s.producer_stamp

module _ {F : Type 0} ⦃single : Single F⦄ where
  abbrev pub pcm_slot : F → SourceSample F
  pcm_slot sample = record { pcm = canonicalize sample; missing = false; stamp = none }

  unfoldable pub producer_push_sample : Shared F → F → Bool × Shared F
  producer_push_sample s sample = producer_publish s (pcm_slot sample)

  -- The loop of `producer_push`; a refused sample ends it, and the samples behind it count as
  -- discarded.
  unfoldable pub push_from : List F → ℕ → Shared F → ℕ × Shared F
  push_from [] accepted s = (accepted, s)
  push_from (x ∷ xs) accepted s =
      let (published, s') = producer_push_sample s x in
      let rest = push_from xs (sat_add accepted 1) s' in
      if published then rest else (accepted, count_discarded s' (length xs))

  unfoldable pub producer_push : Shared F → List F → ℕ × Shared F
  producer_push s input = if finish_pending s then (0, s) else push_from input 0 s

  abbrev pub gap_slot : SourceSample F
  gap_slot = record { pcm = single.zero; missing = true; stamp = none }

  -- The loop of `producer_gap`, with the samples still to publish.
  unfoldable pub gap_from : ℕ → ℕ → Shared F → ℕ × Shared F
  gap_from zero accepted s = (accepted, s)
  gap_from (suc left) accepted s =
      let (published, s') = producer_publish s gap_slot in
      let rest = gap_from left (accepted + 1) s' in
      if published then rest else (accepted, count_discarded s' left)

  unfoldable pub producer_gap : Shared F → ℕ → ℕ × Shared F
  producer_gap s samples = if finish_pending s then (0, s) else gap_from samples 0 s

-- The span lies before `end`, is not empty, and starts at most a capacity before `from`.
unfoldable pub is_admissible : ℕ → ℕ → ℕ → Span → Bool
is_admissible capacity from end span =
    not (leb span.end span.start || ltb end span.end || ltb span.start (from - capacity))

unfoldable pub all_admissible : ℕ → ℕ → ℕ → List Span → Bool
unfolding is_admissible
all_admissible capacity from end [] = true
all_admissible capacity from end (x ∷ xs) =
    is_admissible capacity from end x && all_admissible capacity from end xs

-- The producer is in this generation, at another source position.
unfoldable pub is_discontiguous : Option Stamp → ℕ → ℕ → Bool
is_discontiguous none generation source_start = false
is_discontiguous (some stamp) generation source_start =
    stamp.generation == generation && not (stamp.source == source_start)

module _ {F : Type 0} ⦃single : Single F⦄ where
  -- The part of `producer_push_tagged` behind its checks.
  unfoldable pub push_admitted : Shared F → List F → ℕ → ℕ → List Span → Option ℕ × Shared F
  push_admitted s input generation source_start spans =
      let count = min (length input) (s.capacity - available s) in
      if count == 0
      then (some 0, count_discarded s (length input))
      else let s1 = record s {
        mute_mailbox = publish s.mute_mailbox generation spans (source_start + count);
        producer_stamp = some (record { generation = generation; source = source_start });
      } in
        let (accepted, s2) = producer_push s1 (take count input) in
        (some accepted, count_discarded s2 (length input - accepted))

  unfoldable pub producer_push_tagged : Shared F → List F → ℕ → ℕ → List Span → Option ℕ × Shared F
  unfolding push_admitted
  producer_push_tagged s0 input generation source_start spans =
      let s = sync_producer_epoch s0 in
      let end = source_start + length input in
      if finish_pending s
      then (some 0, s)
      else if ltb u64_max end
          || ltb s.max_producer (length input)
          || ltb max_spans (length spans)
          || not (all_admissible s.capacity source_start end spans)
          || is_discontiguous s.producer_stamp generation source_start
      then (none, s)
      else if ltb (free s.mute_mailbox) (length spans)
      then (some 0, s)
      else push_admitted s input generation source_start spans

module _ {F : Type 0} where
  -- `producer_mute` at the producer's stamp.
  unfoldable pub mute_from : Shared F → Option Stamp → ℕ → List Span → Option ℕ × Shared F
  mute_from s none generation spans = (none, s)
  mute_from s (some current) generation spans =
      if not (current.generation == generation)
        || ltb max_spans (length spans)
        || not (all_admissible s.capacity current.source current.source spans)
      then (none, s)
      else let count = min (length spans) (free s.mute_mailbox) in
        (
          some count,
          record s {
            mute_mailbox = publish s.mute_mailbox generation (take count spans) current.source;
          },
        )

  unfoldable pub producer_mute : Shared F → ℕ → List Span → Option ℕ × Shared F
  unfolding mute_from
  producer_mute s0 generation spans =
      let s = sync_producer_epoch s0 in mute_from s s.producer_stamp generation spans
