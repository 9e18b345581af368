-- ===== src/Mute/Mailbox.antt =====
-- `Mailbox` of src/mute.rs. The boxed slots are a list, the two atomic cursors numbers; an
-- operation that stores to the mailbox returns it.
pub mod Refine
pub mod Proper
use rate_adjusting_pcm_ring.Common.{
  ℕ, ◌-◌, ◌%◌, min, List, [], ◌∷◌, Option, none, some, length, get_or, set, replicate, ltb, ◌==◌,
  if◌then◌else◌,
}
use rate_adjusting_pcm_ring.Common.Cursor.{distance, advance}
use rate_adjusting_pcm_ring.Mute.Types.{Span, Interval, queue}

pub record Mailbox : Type 0 where
  pub slots : List Interval
  pub written : ℕ
  pub read : ℕ

abbrev pub blank : Interval
blank = record { generation = 0; span = record { start = 0; end = 0 } }

unfoldable pub new : Mailbox
new = record { slots = replicate queue blank; written = 0; read = 0 }

-- The credit that the producer may use.
unfoldable pub free : Mailbox → ℕ
free m = queue - distance queue m.written m.read

-- A span cut off at the accepted source end.
unfoldable pub clip : ℕ → ℕ → Span → Interval
clip generation end span = record {
  generation = generation;
  span = record { start = span.start; end = min span.end end };
}

-- The body of the loop of `publish`: the slots and the local cursor after one span.
unfoldable pub write_span : ℕ → ℕ → Span → List Interval × ℕ → List Interval × ℕ
unfolding clip
write_span generation end span (slots, written) =
    let clipped = clip generation end span in
    if ltb clipped.span.start clipped.span.end
    then (set slots (written % queue) clipped, advance queue written)
    else (slots, written)

-- The loop of `publish`.
unfoldable pub write_spans : ℕ → ℕ → List Span → List Interval × ℕ → List Interval × ℕ
unfolding write_span
write_spans generation end [] s = s
write_spans generation end (span ∷ spans) s =
    write_spans generation end spans (write_span generation end span s)

-- One final store publishes the whole batch.
unfoldable pub publish : Mailbox → ℕ → List Span → ℕ → Mailbox
unfolding write_spans
publish m generation spans end =
    let (slots, written) = write_spans generation end spans (m.slots, m.written) in
    record m { slots = slots; written = written }

unfoldable pub pop : Mailbox → Option Interval × Mailbox
pop m =
    if m.read == m.written
    then (none, m)
    else (some (get_or m.slots (m.read % queue) blank), record m { read = advance queue m.read })

unfoldable pub reset : Mailbox → Mailbox
reset m = record m { read = m.written }
