-- ===== src/Mute/Mailbox/Refine.antt =====
-- The mailbox is a queue of at most 128 intervals: what each operation of src/mute.rs does to it.
use rate_adjusting_pcm_ring.Common.{
  ℕ, suc, min, ◌+◌, ◌*◌, ◌%◌, ◌≤◌, ◌<◌, ◌≡◌, ◌≢◌, refl, sym, ap, ◌∙◌, List, [], ◌∷◌, ◌++◌, Option,
  none, some, arith, length, length-set, append-nil, append_assoc, ltb, ◌==◌, if◌then◌else◌, get_or,
  set, Bool-cases, inl, inr, length-replicate, ==_iff,
}
use rate_adjusting_pcm_ring.Common.Cursor.{
  distance, advance, window, length-window, window-set, advance-lt, distance-advance_written,
  distance-advance_read, slot-written, distance-eq_zero, window_read,
}
use rate_adjusting_pcm_ring.Mute.Types.{Span, Interval, queue}
use rate_adjusting_pcm_ring.Mute.Mailbox.{
  Mailbox, blank, new, free, clip, write_span, write_spans, publish, pop, reset,
}

-- The slots and cursors of a mailbox, as the code keeps them.
pub record AreValid (slots : List Interval) (written read : ℕ) : Type 0 where
  pub size : length slots ≡ queue
  pub written_lt : written < queue * 2
  pub read_lt : read < queue * 2
  pub fits : distance queue written read ≤ queue

abbrev pub IsValid : Mailbox → Type 0
IsValid m = AreValid m.slots m.written m.read

-- The published intervals that the consumer has not copied, oldest first.
unfoldable pub unread : List Interval → ℕ → ℕ → List Interval
unread slots written read = window blank slots queue read (distance queue written read)

unfoldable pub contents : Mailbox → List Interval
unfolding unread
contents m = unread m.slots m.written m.read

-- What one span of a batch should add: the part of it before the accepted end, under the batch's
-- generation, if there is one.
abbrev kept : ℕ → ℕ → Span → List Interval
kept generation end s =
    let covered : Span = record { start = s.start; end = min s.end end } in
    if ltb s.start (min s.end end)
    then record { generation = generation; span = covered } ∷ []
    else []

-- What a batch should add.
unfoldable pub clipped_batch : ℕ → ℕ → List Span → List Interval
clipped_batch generation end [] = []
clipped_batch generation end (s ∷ ss) = kept generation end s ++ clipped_batch generation end ss

-- Storing one interval in a mailbox that is not full.
store_one :
    (x : Interval) (slots : List Interval) (w r : ℕ)
    → AreValid slots w r
    → distance queue w r < queue
    → AreValid (set slots (w % queue) x) (advance queue w) r
      × (unread (set slots (w % queue) x) (advance queue w) r ≡ unread slots w r ++ (x ∷ []))
      × (distance queue (advance queue w) r ≡ distance queue w r + 1)
unfolding unread
store_one x slots w r v lt =
    let e : distance queue (advance queue w) r ≡ suc (distance queue w r) =
      distance-advance_written queue w r v.written_lt v.read_lt lt ∙ omega arith in
    (
      record {
        size = length-set slots (w % queue) x ∙ v.size;
        written_lt = advance-lt queue w (omega arith);
        read_lt = v.read_lt;
        fits = omega arith;
      },
      rw e (
          window-set blank slots queue r (distance queue w r) (w % queue) x
            (let z = v.size in omega arith) lt (slot-written queue w r v.written_lt v.read_lt)),
      omega arith,
    )

write_span_lem :
    (g e : ℕ) (s : Span) (slots : List Interval) (w r : ℕ)
    → AreValid slots w r
    → distance queue w r < queue
    → let (slots', w') = write_span g e s (slots, w) in
      AreValid slots' w' r
      × (unread slots' w' r ≡ unread slots w r ++ kept g e s)
      × (distance queue w' r ≤ distance queue w r + 1)
unfolding write_span clip
write_span_lem g e s slots w r v room =
    let one = store_one (clip g e s) slots w r v room in
    elim (Bool-cases (ltb s.start (min s.end e))) [
      | inl keep ↦ rw keep (one.0, one.1, omega arith)
      | inr skip ↦ rw skip (v, sym (append-nil _), omega arith)
    ]

write_spans_lem :
    (g e : ℕ) (spans : List Span) (slots : List Interval) (w r : ℕ)
    → AreValid slots w r
    → distance queue w r + length spans ≤ queue
    → let (slots', w') = write_spans g e spans (slots, w) in
      AreValid slots' w' r × (unread slots' w' r ≡ unread slots w r ++ clipped_batch g e spans)
unfolding write_spans clipped_batch
write_spans_lem g e [] slots w r v room = (v, sym (append-nil _))
write_spans_lem g e (s ∷ ss) slots w r v room =
    let one = write_span_lem g e s slots w r v (omega arith) in
    let (slots', w') = write_span g e s (slots, w) in
    let ih = write_spans_lem g e ss slots' w' r one.0 (let d = one.2 in omega arith) in
    (
      ih.0,
      (ih.1
          ∙ (ap (λ t. t ++ clipped_batch g e ss) one.1
              ∙ append_assoc (unread slots w r) (kept g e s) (clipped_batch g e ss))),
    )

-- A new mailbox is valid and holds nothing.
pub new-IsValid : IsValid new × (contents new ≡ [])
unfolding new contents distance
new-IsValid = (
  record {
    size = length-replicate queue blank;
    written_lt = omega arith;
    read_lt = omega arith;
    fits = omega arith;
  },
  refl,
)

pub length-contents : (m : Mailbox) → length (contents m) ≡ distance queue m.written m.read
unfolding contents
length-contents m = length-window blank m.slots queue m.read (distance queue m.written m.read)

-- The credit of a valid mailbox and its unread intervals make up the capacity of 128.
pub free-add-length : (m : Mailbox) → IsValid m → free m + length (contents m) ≡ queue
unfolding free
free-add-length m v = let f = v.fits in omega (arith, length-contents m)

-- On a valid mailbox with credit for all spans, `publish` keeps the mailbox valid and appends exactly the
-- spans, under the generation of the batch, cut off at the accepted end, in order and without the empty
-- ones; nothing unread is overwritten.
pub publish_refines :
    (m : Mailbox) (generation : ℕ) (spans : List Span) (end : ℕ)
    → IsValid m
    → length spans ≤ free m
    → IsValid (publish m generation spans end)
      × (contents (publish m generation spans end)
          ≡ contents m ++ clipped_batch generation end spans)
unfolding publish contents free
publish_refines m generation spans end v room =
    write_spans_lem generation end spans m.slots m.written m.read v (let f = v.fits in omega arith)

-- The queue that a mailbox stands for.
unfoldable pub pop_spec : List Interval → Option Interval × List Interval
pop_spec [] = (none, [])
pop_spec (x ∷ xs) = (some x, xs)

unread_nil : (m : Mailbox) → IsValid m → m.read ≡ m.written → contents m ≡ []
unfolding contents
unread_nil m v e = rw ((distance-eq_zero queue m.written m.read v.written_lt v.read_lt).1 e) refl

unread_cons :
    (m : Mailbox)
    → IsValid m
    → m.read ≢ m.written
    → contents m
      ≡ get_or m.slots (m.read % queue) blank ∷ contents (record m { read = advance queue m.read })
unfolding contents
unread_cons m v ne = window_read blank m.slots queue m.written m.read v.written_lt v.read_lt ne

popped-IsValid :
    (m : Mailbox)
    → IsValid m
    → m.read ≢ m.written
    → IsValid (record m { read = advance queue m.read })
popped-IsValid m v ne = record {
  size = v.size;
  written_lt = v.written_lt;
  read_lt = advance-lt queue m.read (omega arith);
  fits =
      let f = v.fits in
      omega (arith, distance-advance_read queue m.written m.read v.written_lt v.read_lt ne);
}

-- `pop` of a valid mailbox keeps it valid, and takes the oldest unread interval or reports that
-- there is none.
pub pop_refines :
    (m : Mailbox)
    → IsValid m
    → let (out, m') = pop m in IsValid m' × (pop_spec (contents m) ≡ (out, contents m'))
unfolding pop pop_spec
pop_refines m v = elim (Bool-cases (m.read == m.written)) [
  | inl e ↦ let none_left = unread_nil m v ((==_iff m.read m.written).0 e) in rw e (v, rw none_left)
  | inr ne ↦
      let differ : m.read ≢ m.written = λ p. cc (ne, (==_iff m.read m.written).1 p) in
      rw ne (popped-IsValid m v differ, rw (unread_cons m v differ))
]

-- `reset` of a valid mailbox discards everything that was published before it, and keeps the
-- mailbox valid.
pub reset_empties : (m : Mailbox) → IsValid m → IsValid (reset m) × (contents (reset m) ≡ [])
unfolding reset
reset_empties m v =
    let w = v.written_lt in
    let zero = (distance-eq_zero queue m.written m.written w w).1 refl in
    let ok : IsValid (record m { read = m.written }) = record {
      size = v.size;
      written_lt = w;
      read_lt = w;
      fits = omega arith;
    } in
    (ok, unread_nil (record m { read = m.written }) ok refl)
