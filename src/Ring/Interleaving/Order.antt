-- ===== src/Ring/Interleaving/Order.antt =====
-- In every interleaving the samples arrive in order, each once, and no slot is written while it is read.
use rate_adjusting_pcm_ring.Common.{
  ℕ, ◌<◌, ◌≡◌, ◌≢◌, refl, sym, ap, ◌∙◌, List, [], ◌∷◌, ◌++◌, append_assoc, append-nil, Bool, true,
  false, arith, get_or-set_self, leb, ◌==◌, ==_iff, if◌then◌else◌,
}
use rate_adjusting_pcm_ring.Common.Cursor.{distance}
use rate_adjusting_pcm_ring.Float.{Single}
use rate_adjusting_pcm_ring.Ring.State.{Shared, SourceSample, empty_slot, cursor_distance}
use rate_adjusting_pcm_ring.Ring.State.Queue.{IsValid, contents}
use rate_adjusting_pcm_ring.Ring.Interleaving.{
  ProducerPoint, ready, claimed, stored, ConsumerPoint, waiting, found, copied, System, Turn,
  produce, consume, release_read, producer_step, consumer_step, turn, run, start,
}
use rate_adjusting_pcm_ring.Ring.Interleaving.Slots.{
  ConsumerHolds, Inv, IsReading, IsWriting, ProducerHolds, busy_of, consumer_slot,
  contents-release_read, contents-release_written, contents-write_slot, producer_slot,
  release_read-IsValid, release_read-ProducerHolds, release_written-ConsumerHolds,
  release_written-IsValid, room_of, slot_exists, slots_differ, write_slot-ConsumerHolds,
  write_slot-IsValid,
}

not_full : (a b : ℕ) → leb a b ≡ false → b < a
not_full a b h = ground arith

module _ {F : Type 0} ⦃single : Single F⦄ where
  producer_step-Inv :
      (queued : List (SourceSample F)) (x : SourceSample F) (t : System F)
      → Inv queued t
      → Inv queued (producer_step x t.producer t)
  unfolding producer_step cursor_distance
  producer_step-Inv queued x t h = stepped t.producer h.producer_holds
    where
      s : Shared F
      s = t.shared

      v : IsValid s
      v = h.valid

      offered :
          (b : Bool)
          → leb s.capacity (distance s.capacity s.written s.read) ≡ b
          → Inv queued (if b then t else record t { producer = claimed x })
      offered true e = h
      offered false e = record {
        valid = v;
        fifo = h.fifo;
        producer_holds = not_full s.capacity (distance s.capacity s.written s.read) e;
        consumer_holds = h.consumer_holds;
      }

      stepped : (p : ProducerPoint F) → ProducerHolds p s → Inv queued (producer_step x p t)
      stepped ready held = offered (leb s.capacity (distance s.capacity s.written s.read)) refl
      stepped (claimed y) room = record {
        valid = write_slot-IsValid s y v;
        fifo = h.fifo ∙ ap (λ xs. t.taken ++ xs) (sym (contents-write_slot s y v room));
        producer_holds =
            (room, get_or-set_self s.storage (producer_slot s) y empty_slot (slot_exists s v));
        consumer_holds = write_slot-ConsumerHolds s y t.consumer v room h.consumer_holds;
      }
      stepped (stored y) (room, e) = record {
        valid = release_written-IsValid s v room;
        fifo =
            sym (append_assoc queued t.sent (y ∷ []))
            ∙ (ap (λ xs. xs ++ (y ∷ [])) h.fifo
                ∙ (append_assoc t.taken (contents s) (y ∷ [])
                    ∙ ap (λ xs. t.taken ++ xs) (sym (contents-release_written s y v room e))));
        producer_holds = tt;
        consumer_holds = release_written-ConsumerHolds s t.consumer v room h.consumer_holds;
      }

  consumer_step-Inv :
      (queued : List (SourceSample F)) (t : System F)
      → Inv queued t
      → Inv queued (consumer_step t.consumer t)
  unfolding consumer_step
  consumer_step-Inv queued t h = stepped t.consumer h.consumer_holds
    where
      s : Shared F
      s = t.shared

      v : IsValid s
      v = h.valid

      looked :
          (b : Bool)
          → (s.read == s.written) ≡ b
          → Inv queued (if b then t else record t { consumer = found })
      looked true e = h
      looked false e = record {
        valid = v;
        fifo = h.fifo;
        producer_holds = h.producer_holds;
        consumer_holds = λ p. cc (e, (==_iff s.read s.written).1 p);
      }

      stepped : (c : ConsumerPoint F) → ConsumerHolds c s → Inv queued (consumer_step c t)
      stepped waiting held = looked (s.read == s.written) refl
      stepped found busy = record {
        valid = v;
        fifo = h.fifo;
        producer_holds = h.producer_holds;
        consumer_holds = (busy, refl);
      }
      stepped (copied y) (busy, e) = record {
        valid = release_read-IsValid s v busy;
        fifo =
            h.fifo
            ∙ (ap (λ xs. t.taken ++ xs) (contents-release_read s y v busy e)
                ∙ sym (append_assoc t.taken (y ∷ []) (contents (release_read s))));
        producer_holds = release_read-ProducerHolds s t.producer v busy h.producer_holds;
        consumer_holds = tt;
      }

  turn-Inv :
      (queued : List (SourceSample F)) (x : Turn F) (t : System F)
      → Inv queued t
      → Inv queued (turn x t)
  unfolding turn
  turn-Inv queued (produce x) t h = producer_step-Inv queued x t h
  turn-Inv queued consume t h = consumer_step-Inv queued t h

  run-Inv :
      (queued : List (SourceSample F)) (xs : List (Turn F)) (t : System F)
      → Inv queued t
      → Inv queued (run xs t)
  unfolding run
  run-Inv queued [] t h = h
  run-Inv queued (x ∷ xs) t h = run-Inv queued xs (turn x t) (turn-Inv queued x t h)

  start-Inv : (s : Shared F) → IsValid s → Inv (contents s) (start s)
  start-Inv s v = record {
    valid = v;
    fifo = append-nil (contents s);
    producer_holds = tt;
    consumer_holds = tt;
  }

  -- However the endpoints' atomic steps interleave, a valid ring stays valid, and what was unread at the
  -- start followed by what was published since is what was taken since followed by what is unread now:
  -- no sample is lost, repeated, altered or reordered.
  pub run_lem :
      (s : Shared F) (xs : List (Turn F))
      → IsValid s
      → IsValid (run xs (start s)).shared
        × (contents s ++ (run xs (start s)).sent
            ≡ (run xs (start s)).taken ++ contents (run xs (start s)).shared)
  run_lem s xs v = let h = run-Inv (contents s) xs (start s) (start-Inv s v) in (h.valid, h.fifo)

  -- When the producer is about to write a slot, or has written it without publishing it yet, and the
  -- consumer is about to copy a slot, or has copied it without releasing it yet, the two slots differ,
  -- whatever interleaving of steps led there from a valid ring.
  pub run-IsExclusive :
      (s : Shared F) (xs : List (Turn F))
      → IsValid s
      → IsWriting (run xs (start s)).producer
      → IsReading (run xs (start s)).consumer
      → producer_slot (run xs (start s)).shared ≢ consumer_slot (run xs (start s)).shared
  run-IsExclusive s xs v =
      let t : System F = run xs (start s) in
      let h = run-Inv (contents s) xs (start s) (start-Inv s v) in
      λ writing reading.
        slots_differ t.shared h.valid (room_of t.producer t.shared writing h.producer_holds)
          (busy_of t.consumer t.shared reading h.consumer_holds)
