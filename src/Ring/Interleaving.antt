-- ===== src/Ring/Interleaving.antt =====
-- The atomic steps of `producer_publish` and `consumer_take_source_sample` of src/ring.rs, which the two
-- endpoints take in any order. Each step has one access to what the other endpoint reaches: a load of a
-- cursor with the test of it, the access to a slot, or the store of a cursor. Memory is sequentially
-- consistent here.
pub mod Slots
pub mod Order
use rate_adjusting_pcm_ring.Common.{
  ℕ, ◌%◌, List, [], ◌∷◌, ◌++◌, Bool, true, false, get_or, set, leb, ◌==◌, if◌then◌else◌,
}
use rate_adjusting_pcm_ring.Common.Cursor.{advance}
use rate_adjusting_pcm_ring.Float.{Single}
use rate_adjusting_pcm_ring.Ring.State.{Shared, SourceSample, empty_slot, cursor_distance}

-- Where the producer stands: before the test for a full ring, before the write of the slot, and before
-- the store that publishes it.
pub data ProducerPoint (F : Type 0) : Type 0 where
  ready : ProducerPoint F
  claimed : SourceSample F → ProducerPoint F
  stored : SourceSample F → ProducerPoint F

-- Where the consumer stands: before the test for an empty ring, before the copy of the slot, and before
-- the store that releases it.
pub data ConsumerPoint (F : Type 0) : Type 0 where
  waiting : ConsumerPoint F
  found : ConsumerPoint F
  copied : SourceSample F → ConsumerPoint F

-- What was published and what was taken so far is kept for the theorems.
pub record System (F : Type 0) : Type 0 where
  pub shared : Shared F
  pub producer : ProducerPoint F
  pub consumer : ConsumerPoint F
  pub sent : List (SourceSample F)
  pub taken : List (SourceSample F)

-- Whose step is next. The producer's sample is the one that it offers if it is ready.
pub data Turn (F : Type 0) : Type 0 where
  produce : SourceSample F → Turn F
  consume : Turn F

module _ {F : Type 0} where
  -- `*self.storage[index].get() = sample`
  unfoldable pub write_slot : Shared F → SourceSample F → Shared F
  write_slot s x = record s { storage = set s.storage (s.written % s.capacity) x }

  -- `self.written.store((written + 1) % (self.capacity_u64 * 2), Release)`
  unfoldable pub release_written : Shared F → Shared F
  release_written s = record s { written = advance s.capacity s.written }

  -- `self.read.store((read + 1) % (self.capacity_u64 * 2), Release)`
  unfoldable pub release_read : Shared F → Shared F
  release_read s = record s { read = advance s.capacity s.read }

  -- A ring that is full refuses the sample.
  unfoldable pub producer_step : SourceSample F → ProducerPoint F → System F → System F
  unfolding write_slot release_written
  producer_step x ready t =
      if leb t.shared.capacity (cursor_distance t.shared t.shared.written t.shared.read)
      then t
      else record t { producer = claimed x }
  producer_step y (claimed x) t = record t { shared = write_slot t.shared x; producer = stored x }
  producer_step y (stored x) t = record t {
    shared = release_written t.shared;
    producer = ready;
    sent = t.sent ++ (x ∷ []);
  }

module _ {F : Type 0} ⦃single : Single F⦄ where
  unfoldable pub consumer_step : ConsumerPoint F → System F → System F
  unfolding release_read
  consumer_step waiting t =
      if t.shared.read == t.shared.written then t else record t { consumer = found }
  consumer_step found t = record t {
    consumer = copied (get_or t.shared.storage (t.shared.read % t.shared.capacity) empty_slot);
  }
  consumer_step (copied x) t = record t {
    shared = release_read t.shared;
    consumer = waiting;
    taken = t.taken ++ (x ∷ []);
  }

  unfoldable pub turn : Turn F → System F → System F
  unfolding producer_step consumer_step
  turn (produce x) t = producer_step x t.producer t
  turn consume t = consumer_step t.consumer t

  -- A schedule, the first turn first.
  unfoldable pub run : List (Turn F) → System F → System F
  unfolding turn
  run [] t = t
  run (x ∷ xs) t = run xs (turn x t)

  abbrev pub start : Shared F → System F
  start s = record { shared = s; producer = ready; consumer = waiting; sent = []; taken = [] }
