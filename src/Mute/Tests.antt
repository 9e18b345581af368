-- ===== src/Mute/Tests.antt =====
-- src/mute.rs on concrete values: the theorems at inputs that exercise them.
use rate_adjusting_pcm_ring.Common.{
  ℕ, ◌≡◌, ◌≤◌, refl, List, [], ◌∷◌, ◌++◌, some, ◌||◌, length, arith, All,
}
use rate_adjusting_pcm_ring.Common.Cursor.{distance}
use rate_adjusting_pcm_ring.Mute.Types.{Span, Interval, Position}
use rate_adjusting_pcm_ring.Mute.Mailbox
use rate_adjusting_pcm_ring.Mute.Mailbox.Refine.{
  contents, clipped_batch, new-IsValid as new_mailbox-IsValid, publish_refines, pop_spec,
  pop_refines, reset_empties, free-add-length,
}
use rate_adjusting_pcm_ring.Mute.Mailbox.Refine
use rate_adjusting_pcm_ring.Mute.History.{History, new, insert, muted, retire}
use rate_adjusting_pcm_ring.Mute.History.Sorted.{
  IsValid, new-IsValid, insert-IsValid, insert_refused,
}
use rate_adjusting_pcm_ring.Mute.History.Retired.{IsToCome, retire_lem}
use rate_adjusting_pcm_ring.Mute.History.Coverage.{
  inside, covers, covers-insert, covers-retire, meets, meets_any, muted-meets_any, muted-insert,
}

-- Two spans, of which the accepted end 8 cuts the second.
abbrev two_spans : List Span
two_spans = record { start = 2; end = 5 } ∷ record { start = 6; end = 20 } ∷ []

abbrev loaded : Mailbox.Mailbox
loaded = Mailbox.publish Mailbox.new 1 two_spans 8

enough_credit : length two_spans ≤ Mailbox.free Mailbox.new
unfolding Mailbox.free Mailbox.new distance
enough_credit = omega arith

published :
    Mailbox.Refine.IsValid loaded
    × (contents loaded ≡ contents Mailbox.new ++ clipped_batch 1 8 two_spans)
published = publish_refines Mailbox.new 1 two_spans 8 new_mailbox-IsValid.0 enough_credit

publish_refines_example :
    Mailbox.Refine.IsValid loaded
    × (contents loaded ≡ contents Mailbox.new ++ clipped_batch 1 8 two_spans)
publish_refines_example =
    publish_refines Mailbox.new 1 two_spans 8 new_mailbox-IsValid.0 enough_credit

pop_refines_example :
    let (out, m) = Mailbox.pop loaded in
    Mailbox.Refine.IsValid m × (pop_spec (contents loaded) ≡ (out, contents m))
pop_refines_example = pop_refines loaded published.0

abbrev interval : ℕ → ℕ → ℕ → Interval
interval generation start end = record {
  generation = generation;
  span = record { start = start; end = end };
}

-- A history of capacity 2 with two entries that are apart.
abbrev one_entry : History
one_entry = (insert (new 2) (interval 1 10 20)).0

one_entry-IsValid : IsValid one_entry
one_entry-IsValid = insert-IsValid (new 2) (interval 1 10 20) (new-IsValid 2) (omega arith)

abbrev two_entries : History
two_entries = (insert one_entry (interval 1 30 40)).0

two_entries-IsValid : IsValid two_entries
two_entries-IsValid = insert-IsValid one_entry (interval 1 30 40) one_entry-IsValid (omega arith)

-- The new interval joins the two entries.
insert-IsValid_example : IsValid (insert two_entries (interval 1 15 30)).0
insert-IsValid_example =
    insert-IsValid two_entries (interval 1 15 30) two_entries-IsValid (omega arith)

-- The history is full and the interval touches neither entry.
insert_refused_example :
    ((insert two_entries (interval 1 50 60)).0 ≡ two_entries)
    × (length two_entries.entries ≡ two_entries.capacity)
unfolding insert new
insert_refused_example = insert_refused two_entries (interval 1 50 60) two_entries-IsValid refl

abbrev here : Position
here = record { generation = 1; low = 19; high = 20 }

retire_lem_example :
    IsValid (retire two_entries (some here))
    × All (IsToCome here) (retire two_entries (some here)).entries
retire_lem_example = retire_lem two_entries here two_entries-IsValid

covers-insert_example :
    covers 1 25 (insert two_entries (interval 1 15 30)).0.entries
    ≡ (inside 1 25 (interval 1 15 30) || covers 1 25 two_entries.entries)
unfolding insert new
covers-insert_example =
    covers-insert two_entries (interval 1 15 30) 1 25 two_entries-IsValid (omega arith) refl

covers-retire_example :
    covers 1 19 (retire two_entries (some here)).entries ≡ covers 1 19 two_entries.entries
covers-retire_example = covers-retire two_entries here 19 (omega arith)

muted-meets_any_example : muted two_entries (some here) ≡ meets_any here two_entries.entries
muted-meets_any_example = muted-meets_any two_entries here two_entries-IsValid

muted-insert_example :
    muted (insert two_entries (interval 1 15 30)).0 (some here)
    ≡ (meets here (interval 1 15 30) || muted two_entries (some here))
unfolding insert new
muted-insert_example =
    muted-insert two_entries (interval 1 15 30) here two_entries-IsValid (omega arith) (omega arith)
      refl
