-- ===== src/Ring/State/Queue.antt =====
-- The shared state of src/ring.rs as a bounded queue of source samples.
use rate_adjusting_pcm_ring.Common.{
  ℕ, ◌*◌, ◌%◌, ◌≤◌, ◌<◌, ◌≡◌, ◌≢◌, refl, List, [], ◌∷◌, Option, none, some, arith, length, get_or,
  Bool-cases, inl, inr, ◌==◌, ==_iff, u64_max,
}
use rate_adjusting_pcm_ring.Common.Cursor.{
  distance, advance, window, length-window, window_read, advance-lt, distance-advance_read,
  distance-eq_zero,
}
use rate_adjusting_pcm_ring.Float.{Single}
use rate_adjusting_pcm_ring.Mute.Mailbox.Proper.{IsSound as MailboxIsSound}
use rate_adjusting_pcm_ring.Ring.Settings.{minimum_capacity, maximum_capacity}
use rate_adjusting_pcm_ring.Ring.State.{
  Shared, SourceSample, empty_slot, available, consumer_take_source_sample,
}

pub record IsValid {F : Type 0} (s : Shared F) : Type 0 where
  pub at_least : minimum_capacity ≤ s.capacity
  pub at_most : s.capacity ≤ maximum_capacity
  pub size : length s.storage ≡ s.capacity
  pub written_lt : s.written < s.capacity * 2
  pub read_lt : s.read < s.capacity * 2
  pub fits : distance s.capacity s.written s.read ≤ s.capacity
  pub mailbox : MailboxIsSound s.mute_mailbox
  pub discarded_fits : s.discarded ≤ u64_max

-- The unread samples, oldest first, of given slots and cursors.
unfoldable pub unread :
    {F : Type 0} ⦃single : Single F⦄ → List (SourceSample F) → ℕ → ℕ → ℕ → List (SourceSample F)
unread storage capacity written read =
    window empty_slot storage capacity read (distance capacity written read)

module _ {F : Type 0} ⦃single : Single F⦄ where
  unfoldable pub contents : Shared F → List (SourceSample F)
  unfolding unread
  contents s = unread s.storage s.capacity s.written s.read

  pub length-contents : (s : Shared F) → length (contents s) ≡ distance s.capacity s.written s.read
  unfolding contents
  length-contents s =
      length-window empty_slot s.storage s.capacity s.read (distance s.capacity s.written s.read)

  -- `available` is the number of unread samples.
  pub available-length : (s : Shared F) → IsValid s → available s ≡ length (contents s)
  unfolding available
  available-length s v = let f = v.fits in omega (arith, length-contents s)

  -- The queue that the shared state stands for.
  unfoldable pub take_spec : List (SourceSample F) → Option (SourceSample F) × List (SourceSample F)
  take_spec [] = (none, [])
  take_spec (x ∷ xs) = (some x, xs)

  pub contents_nil : (s : Shared F) → IsValid s → s.read ≡ s.written → contents s ≡ []
  unfolding contents
  contents_nil s v e =
      rw ((distance-eq_zero s.capacity s.written s.read v.written_lt v.read_lt).1 e) refl

  pub contents_cons :
      (s : Shared F)
      → IsValid s
      → s.read ≢ s.written
      → contents s
        ≡ get_or s.storage (s.read % s.capacity) empty_slot
          ∷ contents (record s { read = advance s.capacity s.read })
  unfolding contents
  contents_cons s v ne =
      window_read empty_slot s.storage s.capacity s.written s.read v.written_lt v.read_lt ne

  pub taken-IsValid :
      (s : Shared F)
      → IsValid s
      → s.read ≢ s.written
      → IsValid (record s { read = advance s.capacity s.read })
  taken-IsValid s v ne = record {
    at_least = v.at_least;
    at_most = v.at_most;
    size = v.size;
    written_lt = v.written_lt;
    read_lt = advance-lt s.capacity s.read (let a = v.at_least in omega arith);
    fits =
        let f = v.fits in
        omega (arith, distance-advance_read s.capacity s.written s.read v.written_lt v.read_lt ne);
    mailbox = v.mailbox;
    discarded_fits = v.discarded_fits;
  }

  -- On a valid ring the consumer takes the oldest unread sample, or learns that there is none, and
  -- the ring stays valid.
  pub take_refines :
      (s : Shared F)
      → IsValid s
      → let (out, s') = consumer_take_source_sample s in
        IsValid s' × (take_spec (contents s) ≡ (out, contents s'))
  unfolding consumer_take_source_sample take_spec
  take_refines s v = elim (Bool-cases (s.read == s.written)) [
    | inl e ↦
        let none_left = contents_nil s v ((==_iff s.read s.written).0 e) in rw e (v, rw none_left)
    | inr ne ↦
        let differ : s.read ≢ s.written = λ p. cc (ne, (==_iff s.read s.written).1 p) in
        rw ne (taken-IsValid s v differ, rw (contents_cons s v differ))
  ]
