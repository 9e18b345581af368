-- ===== src/Ring/Producer/Publish.antt =====
-- One published slot of `producer_publish`, as an operation on the queue of unread samples.
use rate_adjusting_pcm_ring.Common.{
  ℕ, suc, ◌+◌, ◌%◌, ◌≤◌, ◌<◌, ◌≡◌, refl, sym, ap, ◌∙◌, [], ◌∷◌, ◌++◌, Option, none, some, arith,
  length, length-set, true, false, lt→ltb, le→leb, not_full, ==_iff, u64_max,
}
use rate_adjusting_pcm_ring.Common.Cursor.{
  distance, advance, window-set, advance-lt, distance-advance_written, slot-written,
}
use rate_adjusting_pcm_ring.Float.{Single}
use rate_adjusting_pcm_ring.Mute.Types.{Stamp}
use rate_adjusting_pcm_ring.Ring.State.{
  Shared, SourceSample, empty_slot, cursor_distance, count_discarded,
}
use rate_adjusting_pcm_ring.Ring.State.Queue.{IsValid, contents, length-contents}
use rate_adjusting_pcm_ring.Ring.Finish.{finish_pending}
use rate_adjusting_pcm_ring.Ring.Producer.{
  sync_producer_epoch, store_slot, publish_stamped, producer_publish,
}

-- The identity of the slot that a producer with this stamp publishes next.
unfoldable pub stamp_slot : {F : Type 0} → Option Stamp → SourceSample F → SourceSample F
stamp_slot none x = x
stamp_slot (some t) x = record x { stamp = some t }

-- Its stamp `n` slots later.
unfoldable pub stamp_after : Option Stamp → ℕ → Option Stamp
stamp_after none n = none
stamp_after (some t) n = some (record t { source = t.source + n })

-- The 64-bit source position has room for `n` more slots.
abbrev pub HasRoom : Option Stamp → ℕ → Type 0
HasRoom none n = Unit {0}
HasRoom (some t) n = t.source + n ≤ u64_max

-- The producer has seen the last reset, and no finite burst is outstanding.
pub record IsOpen {F : Type 0} (s : Shared F) : Type 0 where
  pub synced : s.producer_epoch ≡ s.reset_serial
  pub free_to_publish : finish_pending s ≡ false

-- What a producer call leaves alone.
pub record Keeps {F : Type 0} (s s' : Shared F) : Type 0 where
  pub capacity : s'.capacity ≡ s.capacity
  pub read : s'.read ≡ s.read
  pub mailbox : s'.mute_mailbox ≡ s.mute_mailbox
  pub finish : s'.finish ≡ s.finish
  pub reset_serial : s'.reset_serial ≡ s.reset_serial

module _ {F : Type 0} ⦃single : Single F⦄ where
  pub store_slot-IsValid :
      (s : Shared F) (x : SourceSample F)
      → IsValid s
      → distance s.capacity s.written s.read < s.capacity
      → IsValid (store_slot s x)
  unfolding store_slot
  store_slot-IsValid s x v room =
      let longer =
        distance-advance_written s.capacity s.written s.read v.written_lt v.read_lt room in
      record {
        at_least = v.at_least;
        at_most = v.at_most;
        size = length-set s.storage (s.written % s.capacity) x ∙ v.size;
        written_lt = advance-lt s.capacity s.written (omega arith);
        read_lt = v.read_lt;
        fits = omega arith;
        mailbox = v.mailbox;
        discarded_fits = v.discarded_fits;
      }

  contents-store_slot :
      (s : Shared F) (x : SourceSample F)
      → IsValid s
      → distance s.capacity s.written s.read < s.capacity
      → contents (store_slot s x) ≡ contents s ++ (x ∷ [])
  unfolding store_slot contents
  contents-store_slot s x v room =
      let longer : distance s.capacity (advance s.capacity s.written) s.read
          ≡ suc (distance s.capacity s.written s.read) =
        distance-advance_written s.capacity s.written s.read v.written_lt v.read_lt room
        ∙ omega arith in
      rw longer (
        window-set empty_slot s.storage s.capacity s.read (distance s.capacity s.written s.read)
          (s.written % s.capacity) x (let z = v.size in omega arith) room
          (slot-written s.capacity s.written s.read v.written_lt v.read_lt))

-- A slot was appended.
pub record Appended {F : Type 0} ⦃single : Single F⦄ (s s' : Shared F) (x : SourceSample F)
    : Type 0 where
  pub valid : IsValid s'
  pub contents_lem : contents s' ≡ contents s ++ (stamp_slot s.producer_stamp x ∷ [])
  pub stamp : s'.producer_stamp ≡ stamp_after s.producer_stamp 1
  pub keeps : Keeps s s'
  pub epoch : s'.producer_epoch ≡ s.producer_epoch
  pub discarded : s'.discarded ≡ s.discarded

module _ {F : Type 0} ⦃single : Single F⦄ where
  pub restamp-IsValid :
      (s : Shared F) (t : Option Stamp) → IsValid s → IsValid (record s { producer_stamp = t })
  restamp-IsValid s t v = record {
    at_least = v.at_least;
    at_most = v.at_most;
    size = v.size;
    written_lt = v.written_lt;
    read_lt = v.read_lt;
    fits = v.fits;
    mailbox = v.mailbox;
    discarded_fits = v.discarded_fits;
  }

  publish_stamped_lem :
      (s : Shared F) (x : SourceSample F) (t : Option Stamp)
      → s.producer_stamp ≡ t
      → IsValid s
      → distance s.capacity s.written s.read < s.capacity
      → HasRoom t 1
      → ((publish_stamped s x t).0 ≡ true) × Appended s (publish_stamped s x t).1 x
  unfolding publish_stamped
  publish_stamped_lem s x none e v room h = (
    refl,
    record {
      valid = store_slot-IsValid s x v room;
      contents_lem =
          unfold stamp_slot in
          contents-store_slot s x v room
          ∙ ap (λ (t : Option Stamp). contents s ++ (stamp_slot t x ∷ [])) (sym e);
      stamp = unfold store_slot stamp_after in e ∙ ap (λ t. stamp_after t 1) (sym e);
      keeps =
          unfold store_slot in
          record {
            capacity = refl;
            read = refl;
            mailbox = refl;
            finish = refl;
            reset_serial = refl;
          };
      epoch = unfold store_slot in refl;
      discarded = unfold store_slot in refl;
    },
  )
  publish_stamped_lem s x (some t) e v room h =
      let t' : Stamp = record t { source = t.source + 1 } in
      let s' : Shared F = record s { producer_stamp = some t' } in
      let x' : SourceSample F = record x { stamp = some t } in
      rw (lt→ltb t.source u64_max (omega arith)) (
        refl,
        record {
          valid = store_slot-IsValid s' x' (restamp-IsValid s (some t') v) room;
          contents_lem =
              unfold stamp_slot contents store_slot in
              contents-store_slot s x' v room
              ∙ ap (λ (t : Option Stamp). contents s ++ (stamp_slot t x ∷ [])) (sym e);
          stamp = unfold store_slot stamp_after in ap (λ t. stamp_after t 1) (sym e);
          keeps =
              unfold store_slot in
              record {
                capacity = refl;
                read = refl;
                mailbox = refl;
                finish = refl;
                reset_serial = refl;
              };
          epoch = unfold store_slot in refl;
          discarded = unfold store_slot in refl;
        },
      )

  pub sync_open : (s : Shared F) → s.producer_epoch ≡ s.reset_serial → sync_producer_epoch s ≡ s
  unfolding sync_producer_epoch
  sync_open s e = rw ((==_iff s.producer_epoch s.reset_serial).1 e)

  -- On a valid open ring that is not full, with room left in the 64-bit source position,
  -- `producer_publish` puts the slot behind all unread ones, under the stamp of the producer.
  pub publish_open :
      (s : Shared F) (x : SourceSample F)
      → IsValid s
      → IsOpen s
      → length (contents s) < s.capacity
      → HasRoom s.producer_stamp 1
      → ((producer_publish s x).0 ≡ true) × Appended s (producer_publish s x).1 x
  unfolding producer_publish cursor_distance
  publish_open s x v o room h =
      let lt : distance s.capacity s.written s.read < s.capacity =
        omega (arith, length-contents s) in
      rw (sync_open s o.synced, o.free_to_publish, not_full s.capacity _ lt)
        (publish_stamped_lem s x s.producer_stamp refl v lt h)

  -- On a full ring whose producer is open, `producer_publish` refuses the slot, counts one
  -- discarded sample and changes nothing else.
  pub publish_full :
      (s : Shared F) (x : SourceSample F)
      → IsOpen s
      → s.capacity ≤ length (contents s)
      → producer_publish s x ≡ (false, count_discarded s 1)
  unfolding producer_publish cursor_distance
  publish_full s x o full =
      let le : s.capacity ≤ distance s.capacity s.written s.read =
        omega (arith, length-contents s) in
      rw (sync_open s o.synced, o.free_to_publish, le→leb s.capacity _ le)
