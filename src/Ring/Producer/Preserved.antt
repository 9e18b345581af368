-- ===== src/Ring/Producer/Preserved.antt =====
-- Every operation of the producer keeps the shared state valid and its capacity, whatever it is called with: also across
-- a reset, while a burst is outstanding, on a full ring, and with no source position left.
use rate_adjusting_pcm_ring.Common.{
  ℕ, zero, suc, ◌+◌, ◌-◌, ◌≡◌, ◌≤◌, ◌<◌, refl, List, [], ◌∷◌, Option, none, some, Bool, true, false,
  not, ◌||◌, arith, length, length-take, take, min, ltb, leb, ◌==◌, if◌then◌else◌, sat_add,
  sat_add-le, u64_max,
}
use rate_adjusting_pcm_ring.Common.Cursor.{distance}
use rate_adjusting_pcm_ring.Float.{Single}
use rate_adjusting_pcm_ring.Mute.Types.{Span, Stamp, max_spans}
use rate_adjusting_pcm_ring.Mute.Mailbox.{free, publish}
use rate_adjusting_pcm_ring.Mute.Mailbox.Proper.{publish-IsSound}
use rate_adjusting_pcm_ring.Ring.State.{
  Shared, SourceSample, cursor_distance, available, count_discarded,
}
use rate_adjusting_pcm_ring.Ring.State.Queue.{IsValid}
use rate_adjusting_pcm_ring.Ring.Finish.{finish_pending}
use rate_adjusting_pcm_ring.Ring.Producer.{
  sync_producer_epoch, store_slot, publish_stamped, producer_publish, pcm_slot, gap_slot,
  producer_push_sample, push_from, producer_push, gap_from, producer_gap, all_admissible,
  is_discontiguous, push_admitted, producer_push_tagged, mute_from, producer_mute,
}
use rate_adjusting_pcm_ring.Ring.Producer.Publish.{store_slot-IsValid}

lt_of_not_leb : (a b : ℕ) → leb a b ≡ false → b < a
lt_of_not_leb a b h = ground arith

le_of_not_ltb : (a b : ℕ) → ltb a b ≡ false → b ≤ a
le_of_not_ltb a b h = ground arith

-- A valid state of that capacity.
pub record Holds {F : Type 0} (k : ℕ) (s : Shared F) : Type 0 where
  pub valid : IsValid s
  pub capacity : s.capacity ≡ k

-- Both branches of a test keep the state valid, each under its outcome.
pub either-Holds :
    {F A : Type 0} {k : ℕ} (b : Bool) (x y : A × Shared F)
    → (b ≡ true → Holds k x.1)
    → (b ≡ false → Holds k y.1)
    → Holds k (if b then x else y).1
either-Holds true x y hx hy = hx refl
either-Holds false x y hx hy = hy refl

module _ {F : Type 0} {k : ℕ} where
  count_discarded-Holds : (s : Shared F) (n : ℕ) → Holds k s → Holds k (count_discarded s n)
  unfolding count_discarded
  count_discarded-Holds s n h =
      let v = h.valid in
      record {
        valid = record {
          at_least = v.at_least;
          at_most = v.at_most;
          size = v.size;
          written_lt = v.written_lt;
          read_lt = v.read_lt;
          fits = v.fits;
          mailbox = v.mailbox;
          discarded_fits = sat_add-le s.discarded n;
        };
        capacity = h.capacity;
      }

  restamp-Holds :
      (s : Shared F) (t : Option Stamp) → Holds k s → Holds k (record s { producer_stamp = t })
  restamp-Holds s t h = let v = h.valid in record { valid = assumption; capacity = h.capacity }

  sync_producer_epoch-Holds : (s : Shared F) → Holds k s → Holds k (sync_producer_epoch s)
  unfolding sync_producer_epoch
  sync_producer_epoch-Holds s v = through (s.producer_epoch == s.reset_serial)
    where
      through :
          (b : Bool)
          → Holds k
              (if b then s else record s { producer_stamp = none; producer_epoch = s.reset_serial })
      through true = v
      through false = assumption

  mailed-Holds :
      (s : Shared F) (generation : ℕ) (spans : List Span) (end : ℕ)
      → Holds k s
      → length spans ≤ free s.mute_mailbox
      → Holds k (record s { mute_mailbox = publish s.mute_mailbox generation spans end })
  mailed-Holds s generation spans end h room =
      let m = publish-IsSound s.mute_mailbox generation spans end h.valid.mailbox room in
      record { valid = assumption; capacity = h.capacity }

  mute_from-Holds :
      (s : Shared F) (stamp : Option Stamp) (generation : ℕ) (spans : List Span)
      → Holds k s
      → Holds k (mute_from s stamp generation spans).1
  unfolding mute_from
  mute_from-Holds s none generation spans v = v
  mute_from-Holds s (some current) generation spans v =
      let n : ℕ = min (length spans) (free s.mute_mailbox) in
      either-Holds _ _ _ (λ _. v)
        (λ _.
          mailed-Holds s generation (take n spans) current.source v
            (omega (arith, length-take n spans)))

  pub producer_mute-Holds :
      (s : Shared F) (generation : ℕ) (spans : List Span)
      → Holds k s
      → Holds k (producer_mute s generation spans).1
  unfolding producer_mute
  producer_mute-Holds s generation spans v =
      mute_from-Holds (sync_producer_epoch s) (sync_producer_epoch s).producer_stamp generation
        spans (sync_producer_epoch-Holds s v)

module _ {F : Type 0} {k : ℕ} ⦃single : Single F⦄ where
  store_slot-Holds :
      (s : Shared F) (x : SourceSample F)
      → Holds k s
      → distance s.capacity s.written s.read < s.capacity
      → Holds k (store_slot s x)
  unfolding store_slot
  store_slot-Holds s x h room = record {
    valid = store_slot-IsValid s x h.valid room;
    capacity = h.capacity;
  }

  publish_stamped-Holds :
      (s : Shared F) (x : SourceSample F) (t : Option Stamp)
      → Holds k s
      → distance s.capacity s.written s.read < s.capacity
      → Holds k (publish_stamped s x t).1
  unfolding publish_stamped
  publish_stamped-Holds s x none v room = store_slot-Holds s x v room
  publish_stamped-Holds s x (some t) v room =
      let after : Option Stamp = some (record t { source = t.source + 1 }) in
      either-Holds _ _ _
        (λ _.
          store_slot-Holds (record s { producer_stamp = after }) (record x { stamp = some t })
            (restamp-Holds s after v) room)
        (λ _. v)

  producer_publish-Holds :
      (s : Shared F) (x : SourceSample F) → Holds k s → Holds k (producer_publish s x).1
  unfolding producer_publish cursor_distance
  producer_publish-Holds s0 x v0 =
      let s : Shared F = sync_producer_epoch s0 in
      let v = sync_producer_epoch-Holds s0 v0 in
      let full : Bool = leb s.capacity (distance s.capacity s.written s.read) in
      let stored : Bool × Shared F = publish_stamped s x s.producer_stamp in
      either-Holds (finish_pending s) (false, s)
        (if full then (false, count_discarded s 1) else stored) (λ _. v)
        (λ _.
          either-Holds full (false, count_discarded s 1) stored (λ _. count_discarded-Holds s 1 v)
            (λ room.
              publish_stamped-Holds s x s.producer_stamp v
                (lt_of_not_leb s.capacity (distance s.capacity s.written s.read) room)))

  pub producer_push_sample-Holds :
      (s : Shared F) (x : F) → Holds k s → Holds k (producer_push_sample s x).1
  unfolding producer_push_sample
  producer_push_sample-Holds s x v = producer_publish-Holds s (pcm_slot x) v

  push_from-Holds :
      (xs : List F) (accepted : ℕ) (s : Shared F) → Holds k s → Holds k (push_from xs accepted s).1
  unfolding push_from
  push_from-Holds [] accepted s v = v
  push_from-Holds (x ∷ xs) accepted s v =
      let (published, s') = producer_push_sample s x in
      let v' = producer_push_sample-Holds s x v in
      let rest = push_from-Holds xs (sat_add accepted 1) s' v' in
      either-Holds _ _ _ (λ _. rest) (λ _. count_discarded-Holds s' (length xs) v')

  pub producer_push-Holds :
      (s : Shared F) (input : List F) → Holds k s → Holds k (producer_push s input).1
  unfolding producer_push
  producer_push-Holds s input v = either-Holds _ _ _ (λ _. v) (λ _. push_from-Holds input 0 s v)

  gap_from-Holds :
      (left accepted : ℕ) (s : Shared F) → Holds k s → Holds k (gap_from left accepted s).1
  unfolding gap_from
  gap_from-Holds zero accepted s v = v
  gap_from-Holds (suc left) accepted s v =
      let (published, s') = producer_publish s gap_slot in
      let v' = producer_publish-Holds s gap_slot v in
      let rest = gap_from-Holds left (accepted + 1) s' v' in
      either-Holds _ _ _ (λ _. rest) (λ _. count_discarded-Holds s' left v')

  pub producer_gap-Holds :
      (s : Shared F) (samples : ℕ) → Holds k s → Holds k (producer_gap s samples).1
  unfolding producer_gap
  producer_gap-Holds s samples v = either-Holds _ _ _ (λ _. v) (λ _. gap_from-Holds samples 0 s v)

  push_admitted-Holds :
      (s : Shared F) (input : List F) (generation start : ℕ) (spans : List Span)
      → Holds k s
      → length spans ≤ free s.mute_mailbox
      → Holds k (push_admitted s input generation start spans).1
  unfolding push_admitted
  push_admitted-Holds s input generation start spans v room =
      let n : ℕ = min (length input) (s.capacity - available s) in
      let first : Option Stamp = some (record { generation = generation; source = start }) in
      let s1 : Shared F = record s {
        mute_mailbox = publish s.mute_mailbox generation spans (start + n);
        producer_stamp = first;
      } in
      let v1 : Holds k s1 =
        restamp-Holds
          (record s { mute_mailbox = publish s.mute_mailbox generation spans (start + n) }) first
          (mailed-Holds s generation spans (start + n) v room) in
      either-Holds _ _ _ (λ _. count_discarded-Holds s (length input) v)
        (λ _.
          count_discarded-Holds (producer_push s1 (take n input)).1
            (length input - (producer_push s1 (take n input)).0)
            (producer_push-Holds s1 (take n input) v1))

  pub producer_push_tagged-Holds :
      (s : Shared F) (input : List F) (generation start : ℕ) (spans : List Span)
      → Holds k s
      → Holds k (producer_push_tagged s input generation start spans).1
  unfolding producer_push_tagged
  producer_push_tagged-Holds s0 input generation start spans v0 =
      let s : Shared F = sync_producer_epoch s0 in
      let v = sync_producer_epoch-Holds s0 v0 in
      let refused : Bool =
        ltb u64_max (start + length input)
        || ltb s.max_producer (length input)
        || ltb max_spans (length spans)
        || not (all_admissible s.capacity start (start + length input) spans)
        || is_discontiguous s.producer_stamp generation start in
      let no_credit : Bool = ltb (free s.mute_mailbox) (length spans) in
      let pushed : Option ℕ × Shared F = push_admitted s input generation start spans in
      let credited : Option ℕ × Shared F = if no_credit then (some 0, s) else pushed in
      either-Holds (finish_pending s) (some 0, s) (if refused then (none, s) else credited) (λ _. v)
        (λ _.
          either-Holds refused (none, s) credited (λ _. v)
            (λ _.
              either-Holds no_credit (some 0, s) pushed (λ _. v)
                (λ room.
                  push_admitted-Holds s input generation start spans v
                    (le_of_not_ltb (free s.mute_mailbox) (length spans) room))))
