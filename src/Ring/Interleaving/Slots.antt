-- ===== src/Ring/Interleaving/Slots.antt =====
-- What each endpoint knows of its slot between two of its atomic steps, and what a step does to the queue.
use native.Mathlib.Nat.{mod-lt}
use rate_adjusting_pcm_ring.Common.{
  ℕ, suc, ◌%◌, ◌<◌, ◌≡◌, ◌≢◌, sym, ap, ◌∙◌, List, [], ◌∷◌, ◌++◌, arith, length, length-set, get_or,
  get_or-set_ne,
}
use rate_adjusting_pcm_ring.Common.Cursor.{
  distance, advance, advance-lt, window-set_past, window_last, slot-ne, slot-written,
  distance-advance_written, distance-advance_read, distance-eq_zero,
}
use rate_adjusting_pcm_ring.Float.{Single}
use rate_adjusting_pcm_ring.Ring.State.{Shared, SourceSample, empty_slot}
use rate_adjusting_pcm_ring.Ring.State.Queue.{IsValid, contents, contents_cons, taken-IsValid}
use rate_adjusting_pcm_ring.Ring.Interleaving.{
  ProducerPoint, ready, claimed, stored, ConsumerPoint, waiting, found, copied, System, write_slot,
  release_written, release_read,
}

module _ {F : Type 0} ⦃single : Single F⦄ where
  -- The slots of the two endpoints.
  abbrev pub producer_slot : Shared F → ℕ
  producer_slot s = s.written % s.capacity

  abbrev pub consumer_slot : Shared F → ℕ
  consumer_slot s = s.read % s.capacity

  -- The producer goes on only with room, and its slot keeps the sample until it is published.
  abbrev pub ProducerHolds : ProducerPoint F → Shared F → Type 0
  ProducerHolds ready s = Unit {0}
  ProducerHolds (claimed x) s = distance s.capacity s.written s.read < s.capacity
  ProducerHolds (stored x) s =
      (distance s.capacity s.written s.read < s.capacity)
      × (get_or s.storage (producer_slot s) empty_slot ≡ x)

  -- The consumer goes on only with a sample, and its slot keeps it until it is released.
  abbrev pub ConsumerHolds : ConsumerPoint F → Shared F → Type 0
  ConsumerHolds waiting s = Unit {0}
  ConsumerHolds found s = s.read ≢ s.written
  ConsumerHolds (copied x) s =
      (s.read ≢ s.written) × (get_or s.storage (consumer_slot s) empty_slot ≡ x)

  -- Between the test and the store of the cursor.
  abbrev pub IsWriting : ProducerPoint F → Type 0
  IsWriting ready = ⊥
  IsWriting (claimed x) = Unit {0}
  IsWriting (stored x) = Unit {0}

  abbrev pub IsReading : ConsumerPoint F → Type 0
  IsReading waiting = ⊥
  IsReading found = Unit {0}
  IsReading (copied x) = Unit {0}

  pub room_of :
      (p : ProducerPoint F) (s : Shared F)
      → IsWriting p
      → ProducerHolds p s
      → distance s.capacity s.written s.read < s.capacity
  room_of ready s w h = elim w [ ]
  room_of (claimed x) s w h = h
  room_of (stored x) s w h = h.0

  pub busy_of :
      (c : ConsumerPoint F) (s : Shared F) → IsReading c → ConsumerHolds c s → s.read ≢ s.written
  busy_of waiting s w h = elim w [ ]
  busy_of found s w h = h
  busy_of (copied x) s w h = h.0

  -- `queued` is what was unread at the start.
  pub record Inv (queued : List (SourceSample F)) (t : System F) : Type 0 where
    pub valid : IsValid t.shared
    pub fifo : queued ++ t.sent ≡ t.taken ++ contents t.shared
    pub producer_holds : ProducerHolds t.producer t.shared
    pub consumer_holds : ConsumerHolds t.consumer t.shared

  -- With room and a sample, the two slots differ.
  pub slots_differ :
      (s : Shared F)
      → IsValid s
      → distance s.capacity s.written s.read < s.capacity
      → s.read ≢ s.written
      → producer_slot s ≢ consumer_slot s
  slots_differ s v room busy =
      slot-ne s.capacity s.written s.read (distance s.capacity s.written s.read)
        (slot-written s.capacity s.written s.read v.written_lt v.read_lt)
        (λ z. busy ((distance-eq_zero s.capacity s.written s.read v.written_lt v.read_lt).0 z)) room

  pub slot_exists : (s : Shared F) → IsValid s → producer_slot s < length s.storage
  slot_exists s v =
      let least = v.at_least in
      let size = v.size in let lt = mod-lt s.written {m = s.capacity} (omega arith) in omega arith

  pub write_slot-IsValid :
      (s : Shared F) (x : SourceSample F) → IsValid s → IsValid (write_slot s x)
  unfolding write_slot
  write_slot-IsValid s x v =
      let size = length-set s.storage (s.written % s.capacity) x ∙ v.size in
      record {
        at_least = v.at_least;
        at_most = v.at_most;
        size = size;
        written_lt = v.written_lt;
        read_lt = v.read_lt;
        fits = v.fits;
        mailbox = v.mailbox;
        discarded_fits = v.discarded_fits;
      }

  pub contents-write_slot :
      (s : Shared F) (x : SourceSample F)
      → IsValid s
      → distance s.capacity s.written s.read < s.capacity
      → contents (write_slot s x) ≡ contents s
  unfolding write_slot contents
  contents-write_slot s x v room =
      window-set_past empty_slot s.storage s.capacity s.read (distance s.capacity s.written s.read)
        (s.written % s.capacity) x room
        (slot-written s.capacity s.written s.read v.written_lt v.read_lt)

  pub release_written-IsValid :
      (s : Shared F)
      → IsValid s
      → distance s.capacity s.written s.read < s.capacity
      → IsValid (release_written s)
  unfolding release_written
  release_written-IsValid s v room =
      let longer =
        distance-advance_written s.capacity s.written s.read v.written_lt v.read_lt room in
      record {
        at_least = v.at_least;
        at_most = v.at_most;
        size = v.size;
        written_lt = advance-lt s.capacity s.written (omega arith);
        read_lt = v.read_lt;
        fits = omega arith;
        mailbox = v.mailbox;
        discarded_fits = v.discarded_fits;
      }

  pub contents-release_written :
      (s : Shared F) (x : SourceSample F)
      → IsValid s
      → distance s.capacity s.written s.read < s.capacity
      → get_or s.storage (producer_slot s) empty_slot ≡ x
      → contents (release_written s) ≡ contents s ++ (x ∷ [])
  unfolding release_written contents
  contents-release_written s x v room e =
      let n : ℕ = distance s.capacity s.written s.read in
      let longer : distance s.capacity (advance s.capacity s.written) s.read ≡ suc n =
        distance-advance_written s.capacity s.written s.read v.written_lt v.read_lt room
        ∙ omega arith in
      let slot = slot-written s.capacity s.written s.read v.written_lt v.read_lt in
      rw longer (
        window_last empty_slot s.storage s.capacity s.read n
        ∙ ap (λ y. contents s ++ (y ∷ [])) (ap (λ i. get_or s.storage i empty_slot) (sym slot) ∙ e))

  -- After a publication the ring is not empty.
  pub released_differs :
      (s : Shared F)
      → IsValid s
      → distance s.capacity s.written s.read < s.capacity
      → s.read ≢ advance s.capacity s.written
  released_differs s v room e =
      let w : ℕ = advance s.capacity s.written in
      let z =
        (distance-eq_zero s.capacity w s.read (advance-lt s.capacity s.written (omega arith))
            v.read_lt).1
          e in
      omega
        (arith, distance-advance_written s.capacity s.written s.read v.written_lt v.read_lt room)

  -- A publication does not disturb the consumer.
  pub write_slot-ConsumerHolds :
      (s : Shared F) (x : SourceSample F) (c : ConsumerPoint F)
      → IsValid s
      → distance s.capacity s.written s.read < s.capacity
      → ConsumerHolds c s
      → ConsumerHolds c (write_slot s x)
  unfolding write_slot
  write_slot-ConsumerHolds s x waiting v room h = h
  write_slot-ConsumerHolds s x found v room h = h
  write_slot-ConsumerHolds s x (copied y) v room (busy, e) =
      (busy, get_or-set_ne s.storage x empty_slot (slots_differ s v room busy) ∙ e)

  pub release_written-ConsumerHolds :
      (s : Shared F) (c : ConsumerPoint F)
      → IsValid s
      → distance s.capacity s.written s.read < s.capacity
      → ConsumerHolds c s
      → ConsumerHolds c (release_written s)
  unfolding release_written
  release_written-ConsumerHolds s waiting v room h = h
  release_written-ConsumerHolds s found v room h = released_differs s v room
  release_written-ConsumerHolds s (copied y) v room (busy, e) = (released_differs s v room, e)

  pub release_read-IsValid :
      (s : Shared F) → IsValid s → s.read ≢ s.written → IsValid (release_read s)
  unfolding release_read
  release_read-IsValid s v busy = taken-IsValid s v busy

  pub contents-release_read :
      (s : Shared F) (x : SourceSample F)
      → IsValid s
      → s.read ≢ s.written
      → get_or s.storage (consumer_slot s) empty_slot ≡ x
      → contents s ≡ x ∷ contents (release_read s)
  unfolding release_read
  contents-release_read s x v busy e =
      contents_cons s v busy
      ∙ ap (λ y. y ∷ contents (record s { read = advance s.capacity s.read })) e

  pub release_read-ProducerHolds :
      (s : Shared F) (p : ProducerPoint F)
      → IsValid s
      → s.read ≢ s.written
      → ProducerHolds p s
      → ProducerHolds p (release_read s)
  unfolding release_read
  release_read-ProducerHolds s ready v busy h = h
  release_read-ProducerHolds s (claimed x) v busy h =
      omega (arith, distance-advance_read s.capacity s.written s.read v.written_lt v.read_lt busy)
  release_read-ProducerHolds s (stored x) v busy (h, e) = (
    omega (arith, distance-advance_read s.capacity s.written s.read v.written_lt v.read_lt busy),
    e,
  )
