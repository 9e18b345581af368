-- ===== src/Ring/Producer/Tagged.antt =====
-- `producer_push_tagged`, `producer_mute` and `sync_producer_epoch`: source identities and mute
-- metadata.
use rate_adjusting_pcm_ring.Common.{
  ℕ, ◌+◌, ◌-◌, ◌≤◌, ◌<◌, ◌≡◌, ◌⊎◌, refl, ap, ◌∙◌, ◌≢◌, List, ◌++◌, none, some, arith, length, map,
  take, take-all, length-take, length-map, true, false, not_ltb, not_zero, ==_iff, u64_max, sat_add,
  sat_add-le, sat_add-exact, min,
}
use rate_adjusting_pcm_ring.Float.{Single}
use rate_adjusting_pcm_ring.Mute.Types.{Stamp, Span, max_spans}
use rate_adjusting_pcm_ring.Mute.Mailbox.{free, publish}
use rate_adjusting_pcm_ring.Mute.Mailbox.Refine.{contents as queued, clipped_batch, publish_refines}
use rate_adjusting_pcm_ring.Mute.Mailbox.Proper.{publish-IsSound}
use rate_adjusting_pcm_ring.Ring.State.{Shared, count_discarded}
use rate_adjusting_pcm_ring.Ring.State.Queue.{IsValid, contents, available-length}
use rate_adjusting_pcm_ring.Ring.Finish.{finish_pending}
use rate_adjusting_pcm_ring.Ring.Producer.{
  sync_producer_epoch, producer_push, push_admitted, producer_push_tagged, producer_mute, mute_from,
  all_admissible, is_discontiguous, pcm_slot,
}
use rate_adjusting_pcm_ring.Ring.Producer.Publish.{stamp_after, IsOpen}
use rate_adjusting_pcm_ring.Ring.Producer.Blocks.{stamp_slots, space, Published, producer_push_lem}

-- What the caller of `producer_push_tagged` must respect.
pub record IsAdmissible {F : Type 0} (s : Shared F) (length_in generation start : ℕ)
    (spans : List Span) : Type 0 where
  pub positions_fit : start + length_in ≤ u64_max
  pub block_fits : length_in ≤ s.max_producer
  pub few_spans : length spans ≤ max_spans
  pub spans_lie : all_admissible s.capacity start (start + length_in) spans ≡ true
  pub contiguous : is_discontiguous s.producer_stamp generation start ≡ false

-- What an admitted block leaves: `n` samples, with their identities and their mutes.
pub record Tagged {F : Type 0} ⦃single : Single F⦄ (s s' : Shared F) (input : List F)
    (generation start n : ℕ) (spans : List Span) : Type 0 where
  pub valid : IsValid s'
  pub samples :
      contents s'
      ≡ contents s
        ++ stamp_slots
            (some (record { generation = generation; source = start }))
            (map pcm_slot (take n input))
  pub mutes :
      queued s'.mute_mailbox ≡ queued s.mute_mailbox ++ clipped_batch generation (start + n) spans
  pub stamp : s'.producer_stamp ≡ some (record { generation = generation; source = start + n })
  pub discarded : s'.discarded ≡ sat_add s.discarded (length input - n)

module _ {F : Type 0} ⦃single : Single F⦄ where
  -- The state in which `push_admitted` publishes the samples.
  abbrev prepared : Shared F → ℕ → ℕ → ℕ → List Span → Shared F
  prepared s n generation start spans = record s {
    mute_mailbox = publish s.mute_mailbox generation spans (start + n);
    producer_stamp = some (record { generation = generation; source = start });
  }

  prepared-IsValid :
      (s : Shared F) (n generation start : ℕ) (spans : List Span)
      → IsValid s
      → length spans ≤ free s.mute_mailbox
      → IsValid (prepared s n generation start spans)
  prepared-IsValid s n g start spans v room = record {
    at_least = v.at_least;
    at_most = v.at_most;
    size = v.size;
    written_lt = v.written_lt;
    read_lt = v.read_lt;
    fits = v.fits;
    mailbox = publish-IsSound s.mute_mailbox g spans (start + n) v.mailbox room;
    discarded_fits = v.discarded_fits;
  }

  contents-prepared :
      (s : Shared F) (n generation start : ℕ) (spans : List Span)
      → contents (prepared s n generation start spans) ≡ contents s
  unfolding contents
  contents-prepared s n g start spans = refl

  count_discarded-IsValid : (s : Shared F) (n : ℕ) → IsValid s → IsValid (count_discarded s n)
  unfolding count_discarded
  count_discarded-IsValid s n v = record {
    at_least = v.at_least;
    at_most = v.at_most;
    size = v.size;
    written_lt = v.written_lt;
    read_lt = v.read_lt;
    fits = v.fits;
    mailbox = v.mailbox;
    discarded_fits = sat_add-le s.discarded n;
  }

  -- The metadata goes out first, then the samples that fit.
  push_admitted-push :
      (s : Shared F) (input : List F) (generation start : ℕ) (spans : List Span)
      → IsValid s
      → 0 < min (length input) (space s)
      → let n = min (length input) (space s) in
        let p = producer_push (prepared s n generation start spans) (take n input) in
        push_admitted s input generation start spans
        ≡ (some p.0, count_discarded p.1 (length input - p.0))
  unfolding push_admitted
  push_admitted-push s input g start spans v some_fits =
      rw (available-length s v, not_zero (min (length input) (space s)) some_fits)

  Tagged-of_Published :
      (s s2 : Shared F) (input : List F) (generation start n : ℕ) (spans : List Span)
      → IsValid s
      → length spans ≤ free s.mute_mailbox
      → n ≡ min (length input) (space s)
      → Published (prepared s n generation start spans) s2 (map pcm_slot (take n input))
      → Tagged s (count_discarded s2 (length input - n)) input generation start n spans
  Tagged-of_Published s s2 input g start n spans v room e p =
      let len : length (map (pcm_slot {F = F}) (take n input)) ≡ n =
        length-map (take n input) (pcm_slot {F = F}) ∙ (length-take n input ∙ omega arith) in
      let same = ap length (contents-prepared s n g start spans) in
      record {
        valid = count_discarded-IsValid s2 (length input - n) p.valid;
        samples =
            unfold count_discarded contents in
            p.contents_lem
            ∙ ap
                (λ t.
                  contents s ++ stamp_slots (some (record { generation = g; source = start })) t)
                (take-all (space (prepared s n g start spans)) (map pcm_slot (take n input))
                  (omega arith));
        mutes =
            unfold count_discarded in
            ap queued p.keeps.mailbox
            ∙ (publish_refines s.mute_mailbox g spans (start + n) v.mailbox.valid room).1;
        stamp =
            unfold count_discarded stamp_after in
            p.stamp ∙ ap (λ k. some (record { generation = g; source = start + k })) (omega arith);
        discarded =
            unfold count_discarded in
            let d = v.discarded_fits in
            ap (λ t. sat_add t (length input - n))
              (p.discarded
                ∙ (ap (sat_add s.discarded) (omega arith)
                    ∙ sat_add-exact s.discarded 0 (omega arith)
                    ∙ omega arith));
      }

  sync_synced : (s : Shared F) → s.producer_epoch ≡ s.reset_serial → sync_producer_epoch s ≡ s
  unfolding sync_producer_epoch
  sync_synced s e = rw ((==_iff s.producer_epoch s.reset_serial).1 e)

  push_admitted_lem :
      (s : Shared F) (input : List F) (generation start : ℕ) (spans : List Span)
      → IsValid s
      → IsOpen s
      → start + length input ≤ u64_max
      → length spans ≤ free s.mute_mailbox
      → 0 < min (length input) (space s)
      → let n = min (length input) (space s) in
        let (out, s') = push_admitted s input generation start spans in
        (out ≡ some n) × Tagged s s' input generation start n spans
  push_admitted_lem s input g start spans v o fit room some_fits =
      let n : ℕ = min (length input) (space s) in
      let s1 = prepared s n g start spans in
      let o1 : IsOpen s1 = record {
        synced = o.synced;
        free_to_publish = unfold finish_pending in o.free_to_publish;
      } in
      let same = ap length (contents-prepared s n g start spans) in
      let len : length (take n input) ≡ n = length-take n input ∙ omega arith in
      let (sent, p) =
        producer_push_lem s1 (take n input) (prepared-IsValid s n g start spans v room) o1
          (omega arith) (omega arith) in
      let all : (producer_push s1 (take n input)).0 ≡ n = omega arith in
      rw (push_admitted-push s input g start spans v some_fits, all)
        (refl, Tagged-of_Published s _ input g start n spans v room refl p)

  -- On a valid ring whose producer has seen the last reset, with no burst pending, an admissible block with
  -- credit for the metadata of all its spans, when at least one sample fits: the ring accepts the prefix
  -- that fits, publishes the mutes of that prefix, gives its samples consecutive source positions from
  -- `start`, and counts the rest as discarded. So credit and discards make up the block.
  pub producer_push_tagged_lem :
      (s : Shared F) (input : List F) (generation start : ℕ) (spans : List Span)
      → IsValid s
      → IsOpen s
      → IsAdmissible s (length input) generation start spans
      → length spans ≤ free s.mute_mailbox
      → 0 < min (length input) (space s)
      → let n = min (length input) (space s) in
        let (out, s') = producer_push_tagged s input generation start spans in
        (out ≡ some n) × Tagged s s' input generation start n spans
  unfolding producer_push_tagged
  producer_push_tagged_lem s input g start spans v o ok room some_fits =
      rw
        (
          sync_synced s o.synced,
          o.free_to_publish,
          not_ltb u64_max (start + length input) ok.positions_fit,
          not_ltb s.max_producer (length input) ok.block_fits,
          not_ltb max_spans (length spans) ok.few_spans,
          ok.spans_lie,
          ok.contiguous,
          not_ltb (free s.mute_mailbox) (length spans) room,
        )
        (push_admitted_lem s input g start spans v o ok.positions_fit room some_fits)

  -- On a ring with no burst pending, a call that is refused, or that finds too little metadata credit for
  -- its spans, only takes note of a reset, and changes nothing if its producer has seen the last one: it
  -- consumes no sample, counts no discard and publishes no mute.
  pub producer_push_tagged_refused :
      (s : Shared F) (input : List F) (generation start : ℕ) (spans : List Span)
      → finish_pending s ≡ false
      → ((producer_push_tagged s input generation start spans).0 ≡ none)
        ⊎ (free s.mute_mailbox < length spans)
      → let after = (producer_push_tagged s input generation start spans).1 in
        (s.producer_epoch ≡ s.reset_serial → after ≡ s)
        × (s.producer_epoch ≢ s.reset_serial
            → after ≡ record s { producer_stamp = none; producer_epoch = s.reset_serial })
  unfolding producer_push_tagged push_admitted sync_producer_epoch finish_pending
  producer_push_tagged_refused s input g start spans quiet h =
      (λ synced. ground arith, λ unseen. ground arith)

  -- On a valid ring whose producer has seen the last reset and has a stamp of the generation,
  -- `producer_mute` publishes a prefix of at most 64 spans, all admissible, as many as there is credit for,
  -- under the generation and cut off at the accepted source end, without empty ones. It touches nothing but
  -- the mailbox, and the ring stays valid.
  pub producer_mute_lem :
      (s : Shared F) (current : Stamp) (generation : ℕ) (spans : List Span)
      → IsValid s
      → s.producer_epoch ≡ s.reset_serial
      → s.producer_stamp ≡ some current
      → current.generation ≡ generation
      → length spans ≤ max_spans
      → all_admissible s.capacity current.source current.source spans ≡ true
      → let n = min (length spans) (free s.mute_mailbox) in
        let (out, s') = producer_mute s generation spans in
        (out ≡ some n)
        × (queued s'.mute_mailbox
            ≡ queued s.mute_mailbox ++ clipped_batch generation current.source (take n spans))
        × (s' ≡ record s { mute_mailbox = s'.mute_mailbox })
        × IsValid s'
  unfolding producer_mute mute_from
  producer_mute_lem s current g spans v synced e same few lie =
      let n : ℕ = min (length spans) (free s.mute_mailbox) in
      let len : length (take n spans) ≡ n = length-take n spans ∙ omega arith in
      let sent =
        publish_refines s.mute_mailbox g (take n spans) current.source v.mailbox.valid
          (omega arith) in
      simp
        (
          sync_synced s synced,
          e,
          (==_iff current.generation g).1 same,
          not_ltb max_spans (length spans) few,
          lie,
        )
        (
          refl,
          sent.1,
          refl,
          record {
            at_least = v.at_least;
            at_most = v.at_most;
            size = v.size;
            written_lt = v.written_lt;
            read_lt = v.read_lt;
            fits = v.fits;
            mailbox =
                publish-IsSound s.mute_mailbox g (take n spans) current.source v.mailbox
                  (omega arith);
            discarded_fits = v.discarded_fits;
          },
        )
