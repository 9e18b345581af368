-- ===== src/Mute/History.antt =====
-- `History` of src/mute.rs: the consumer's sorted union of mute intervals. `capacity` is the
-- allocation that `new` reserves; `VecDeque` keeps it, since nothing grows the deque past it.
pub mod Sorted
pub mod Coverage
pub mod Retired
use rate_adjusting_pcm_ring.Common.{
  ℕ, zero, suc, min, max, List, [], ◌∷◌, Option, none, some, Bool, true, false, not, ◌&&◌, ◌||◌,
  length, get_elem?, ltb, leb, ◌==◌, if◌then◌else◌,
}
use rate_adjusting_pcm_ring.Mute.Types.{Span, Interval, Position}

pub record History : Type 0 where
  pub entries : List Interval
  pub capacity : ℕ

unfoldable pub new : ℕ → History
new capacity = record { entries = []; capacity = capacity }

unfoldable pub clear : History → History
clear h = record h { entries = [] }

-- Same generation, and the spans overlap or abut.
unfoldable pub touches : Interval → Interval → Bool
touches other interval =
    other.generation == interval.generation
    && leb interval.span.start other.span.end
    && leb other.span.start interval.span.end

unfoldable pub merge : Interval → Interval → Interval
merge interval other = record interval {
  span = record {
    start = min interval.span.start other.span.start;
    end = max interval.span.end other.span.end;
  };
}

-- The `while` loop of `insert`: the interval grown by every entry that touches it on the way, and
-- the entries that stay.
unfoldable pub absorb : Interval → List Interval → Interval × List Interval
unfolding touches merge
absorb interval [] = (interval, [])
absorb interval (other ∷ rest) =
    let t = touches other interval in
    let (grown, kept) = absorb (if t then merge interval other else interval) rest in
    (grown, if t then kept else other ∷ kept)

-- `VecDeque::partition_point` on entries that the predicate splits: the first index where it fails.
unfoldable pub partition_point : (Interval → Bool) → List Interval → ℕ
partition_point p [] = 0
partition_point p (x ∷ xs) = let rest = partition_point p xs in if p x then suc rest else 0

-- `VecDeque::insert`
unfoldable pub insert_at : ℕ → Interval → List Interval → List Interval
insert_at zero v xs = v ∷ xs
insert_at (suc i) v [] = v ∷ []
insert_at (suc i) v (x ∷ xs) = x ∷ insert_at i v xs

-- `(a, b) < (c, d)` and `(a, b) <= (c, d)` on pairs of words.
unfoldable pub pair_lt : ℕ → ℕ → ℕ → ℕ → Bool
pair_lt a b c d = ltb a c || (a == c && ltb b d)

unfoldable pub pair_le : ℕ → ℕ → ℕ → ℕ → Bool
pair_le a b c d = ltb a c || (a == c && leb b d)

unfoldable pub before : Interval → Interval → Bool
unfolding pair_lt
before interval other =
    pair_lt other.generation other.span.start interval.generation interval.span.start

-- `true` is `Ok(())`. On `Err` the deque was full, so the loop removed nothing.
unfoldable pub insert : History → Interval → History × Bool
unfolding absorb partition_point insert_at before
insert h interval =
    let (grown, kept) = absorb interval h.entries in
    if length kept == h.capacity
    then (record h { entries = kept }, false)
    else (record h { entries = insert_at (partition_point (before grown) kept) grown kept }, true)

-- The entry before the partition point, which decides `muted`.
unfoldable pub decides : Position → Option Interval → Bool
decides p none = false
decides p (some interval) = interval.generation == p.generation && ltb p.low interval.span.end

unfoldable pub upto : Position → Interval → Bool
unfolding pair_le
upto p interval = pair_le interval.generation interval.span.start p.generation p.high

-- `index.checked_sub(1)` and the entry there.
unfoldable pub entry_before : List Interval → ℕ → Option Interval
entry_before xs zero = none
entry_before xs (suc i) = get_elem? xs i

unfoldable pub muted : History → Option Position → Bool
unfolding decides entry_before partition_point upto
muted h none = false
muted h (some p) = decides p (entry_before h.entries (partition_point (upto p) h.entries))

-- The `while` loop of `retire`.
unfoldable pub retire_front : Position → List Interval → List Interval
retire_front p [] = []
retire_front p (x ∷ xs) =
    let rest = retire_front p xs in
    if not (x.generation == p.generation) || leb x.span.end p.low then rest else x ∷ xs

unfoldable pub retire : History → Option Position → History
unfolding retire_front
retire h none = h
retire h (some p) = record h { entries = retire_front p h.entries }
