-- ===== src/Ring/Producer/Blocks.antt =====
-- The loops of `producer_push` and `producer_gap`: which prefix of a block they accept.
use rate_adjusting_pcm_ring.Common.{
  ℕ, zero, suc, ◌+◌, ◌-◌, ◌≤◌, ◌<◌, ◌≡◌, refl, sym, ap, ap₂, ◌∙◌, List, [], ◌∷◌, ◌++◌, Option, none,
  some, arith, length, append-nil, append_assoc, map, replicate, take, take-cons, take-nil, true,
  if◌then◌else◌, u64_max, sat_add, min, length-append, sat_add_assoc, sat_add-exact, sat_add-le,
  dec_lt, length-map, length-replicate,
}
use rate_adjusting_pcm_ring.Float.{Single}
use rate_adjusting_pcm_ring.Mute.Types.{Stamp}
use rate_adjusting_pcm_ring.Ring.State.{Shared, SourceSample, count_discarded}
use rate_adjusting_pcm_ring.Ring.State.Queue.{IsValid, contents}
use rate_adjusting_pcm_ring.Ring.Finish.{is_pending, finish_pending}
use rate_adjusting_pcm_ring.Ring.Producer.{
  producer_publish, producer_push_sample, push_from, producer_push, gap_from, producer_gap,
  pcm_slot, gap_slot,
}
use rate_adjusting_pcm_ring.Ring.Producer.Publish.{
  stamp_slot, stamp_after, HasRoom, IsOpen, Keeps, Appended, publish_open, publish_full,
}

-- The identities of consecutive slots.
unfoldable pub stamp_slots :
    {F : Type 0} → Option Stamp → List (SourceSample F) → List (SourceSample F)
unfolding stamp_slot stamp_after
stamp_slots t [] = []
stamp_slots t (x ∷ xs) = stamp_slot t x ∷ stamp_slots (stamp_after t 1) xs

-- How many more samples the ring holds.
abbrev pub space : {F : Type 0} ⦃single : Single F⦄ → Shared F → ℕ
space s = s.capacity - length (contents s)

-- The outcome of publishing a block: as much of it as fits went behind the unread samples in order,
-- under consecutive stamps, and the rest was counted as discarded.
pub record Published {F : Type 0} ⦃single : Single F⦄ (s s' : Shared F) (xs : List (SourceSample F))
    : Type 0 where
  pub valid : IsValid s'
  pub is_open : IsOpen s'
  pub contents_lem : contents s' ≡ contents s ++ stamp_slots s.producer_stamp (take (space s) xs)
  pub stamp : s'.producer_stamp ≡ stamp_after s.producer_stamp (min (length xs) (space s))
  pub discarded : s'.discarded ≡ sat_add s.discarded (length xs - space s)
  pub keeps : Keeps s s'

-- Both loops publish the slots of a list until one is refused.
publish_all : {F : Type 0} → List (SourceSample F) → ℕ → Shared F → ℕ × Shared F
publish_all [] accepted s = (accepted, s)
publish_all (x ∷ xs) accepted s =
    let (published, s') = producer_publish s x in
    let rest = publish_all xs (accepted + 1) s' in
    if published then rest else (accepted, count_discarded s' (length xs))

stamp_after_zero : (t : Option Stamp) → stamp_after t 0 ≡ t
unfolding stamp_after
stamp_after_zero none = refl
stamp_after_zero (some t) = ap (λ n. some (record t { source = n })) (omega arith)

stamp_after_add :
    (t : Option Stamp) (m n : ℕ) → stamp_after (stamp_after t m) n ≡ stamp_after t (m + n)
unfolding stamp_after
stamp_after_add none m n = refl
stamp_after_add (some t) m n = ap (λ k. some (record t { source = k })) (omega arith)

HasRoom-first : (t : Option Stamp) (n : ℕ) → HasRoom t (suc n) → HasRoom t 1
HasRoom-first none n h = tt
HasRoom-first (some t) n h = omega arith

HasRoom-rest : (t : Option Stamp) (n : ℕ) → HasRoom t (suc n) → HasRoom (stamp_after t 1) n
unfolding stamp_after
HasRoom-rest none n h = tt
HasRoom-rest (some t) n h = omega arith

module _ {F : Type 0} ⦃single : Single F⦄ where
  Published-none : (s : Shared F) → IsValid s → IsOpen s → Published s s []
  Published-none s v o = record {
    valid = v;
    is_open = o;
    contents_lem = rw take-nil (unfold stamp_slots in sym (append-nil (contents s)));
    stamp =
        sym (ap (stamp_after s.producer_stamp) (omega arith) ∙ stamp_after_zero s.producer_stamp);
    discarded =
        let d = v.discarded_fits in
        omega (arith, sat_add-exact s.discarded (length {A = SourceSample F} [] - space s));
    keeps = record {
      capacity = refl;
      read = refl;
      mailbox = refl;
      finish = refl;
      reset_serial = refl;
    };
  }

  -- A full ring discards the whole block.
  Published-full :
      (s : Shared F) (xs : List (SourceSample F))
      → IsValid s
      → IsOpen s
      → space s ≡ 0
      → Published s (count_discarded s (length xs)) xs
  unfolding count_discarded
  Published-full s xs v o e = record {
    valid = record {
      at_least = v.at_least;
      at_most = v.at_most;
      size = v.size;
      written_lt = v.written_lt;
      read_lt = v.read_lt;
      fits = v.fits;
      mailbox = v.mailbox;
      discarded_fits = sat_add-le s.discarded (length xs);
    };
    is_open = record {
      synced = o.synced;
      free_to_publish = unfold finish_pending in o.free_to_publish;
    };
    contents_lem =
        rw e (unfold contents stamp_slots in sym (append-nil (unfold contents in contents s)));
    stamp =
        sym (ap (stamp_after s.producer_stamp) (omega arith) ∙ stamp_after_zero s.producer_stamp);
    discarded = ap (sat_add s.discarded) (omega arith);
    keeps = record {
      capacity = refl;
      read = refl;
      mailbox = refl;
      finish = refl;
      reset_serial = refl;
    };
  }

module _ {F : Type 0} ⦃single : Single F⦄ where
  Appended-IsOpen : (s s' : Shared F) (x : SourceSample F) → IsOpen s → Appended s s' x → IsOpen s'
  unfolding finish_pending
  Appended-IsOpen s s' x o a = record {
    synced = a.epoch ∙ (o.synced ∙ sym a.keeps.reset_serial);
    free_to_publish = ap is_pending a.keeps.finish ∙ o.free_to_publish;
  }

  space-Appended : (s s' : Shared F) (x : SourceSample F) → Appended s s' x → space s' ≡ space s - 1
  space-Appended s s' x a =
      let longer =
        ap length a.contents_lem
        ∙ length-append (contents s) (stamp_slot s.producer_stamp x ∷ []) in
      let c = a.keeps.capacity in omega arith

  Published-cons :
      (s s1 s' : Shared F) (x : SourceSample F) (xs : List (SourceSample F))
      → 0 < space s
      → Appended s s1 x
      → Published s1 s' xs
      → Published s s' (x ∷ xs)
  Published-cons s s1 s' x xs room a p =
      let fewer = space-Appended s s1 x a in
      record {
        valid = p.valid;
        is_open = p.is_open;
        contents_lem =
            rw (take-cons (space s) x xs room, ← fewer)
              (p.contents_lem
                ∙ (ap₂ ◌++◌ a.contents_lem (ap (λ t. stamp_slots t (take (space s1) xs)) a.stamp)
                    ∙ (append_assoc (contents s) (stamp_slot s.producer_stamp x ∷ [])
                          (stamp_slots (stamp_after s.producer_stamp 1) (take (space s1) xs))
                        ∙ unfold stamp_slots in refl)));
        stamp =
            p.stamp
            ∙ (ap (λ t. stamp_after t (min (length xs) (space s1))) a.stamp
                ∙ (stamp_after_add s.producer_stamp 1 (min (length xs) (space s1))
                    ∙ ap (stamp_after s.producer_stamp) (omega arith)));
        discarded = p.discarded ∙ ap₂ sat_add a.discarded (omega arith);
        keeps = record {
          capacity = p.keeps.capacity ∙ a.keeps.capacity;
          read = p.keeps.read ∙ a.keeps.read;
          mailbox = p.keeps.mailbox ∙ a.keeps.mailbox;
          finish = p.keeps.finish ∙ a.keeps.finish;
          reset_serial = p.keeps.reset_serial ∙ a.keeps.reset_serial;
        };
      }

  -- A refused first sample and the rest of the block count as one discard.
  publish_all-full :
      (s : Shared F) (x : SourceSample F) (xs : List (SourceSample F)) (acc : ℕ)
      → IsOpen s
      → space s ≡ 0
      → publish_all (x ∷ xs) acc s ≡ (acc, count_discarded s (length (x ∷ xs)))
  unfolding publish_all count_discarded
  publish_all-full s x xs acc o e = rw (publish_full s x o (omega arith)) (
      ap (λ n. (acc, record s { discarded = n }))
        (sat_add_assoc s.discarded 1 (length xs) ∙ ap (sat_add s.discarded) (omega arith)))

  publish_all-cons :
      (s : Shared F) (x : SourceSample F) (xs : List (SourceSample F)) (acc : ℕ)
      → (producer_publish s x).0 ≡ true
      → publish_all (x ∷ xs) acc s ≡ publish_all xs (acc + 1) (producer_publish s x).1
  unfolding publish_all
  publish_all-cons s x xs acc e = rw e

  publish_all_lem :
      (xs : List (SourceSample F)) (acc : ℕ) (s : Shared F)
      → IsValid s
      → IsOpen s
      → HasRoom s.producer_stamp (length xs)
      → ((publish_all xs acc s).0 ≡ acc + min (length xs) (space s))
        × Published s (publish_all xs acc s).1 xs
  publish_all_lem [] acc s v o h = unfold publish_all in (omega arith, Published-none s v o)
  publish_all_lem (x ∷ xs) acc s v o h = elim (dec_lt 0 (space s)) [
    | no full ↦
        let e : space s ≡ 0 = omega arith in
        rw (publish_all-full s x xs acc o e) (omega arith, Published-full s (x ∷ xs) v o e)
    | yes room ↦
        let one =
          publish_open s x v o (omega arith) (HasRoom-first s.producer_stamp (length xs) h) in
        let s1 = (producer_publish s x).1 in
        let a = one.1 in
        let more : HasRoom s1.producer_stamp (length xs) =
          rw a.stamp (HasRoom-rest s.producer_stamp (length xs) h) in
        let ih = publish_all_lem xs (acc + 1) s1 a.valid (Appended-IsOpen s s1 x o a) more in
        let fewer = space-Appended s s1 x a in
        rw (publish_all-cons s x xs acc one.0)
          (let e = ih.0 in omega arith, Published-cons s s1 _ x xs room a ih.1)
  ]

  -- The loops are such loops.
  push_from-publish_all :
      (xs : List F) (acc : ℕ) (s : Shared F)
      → acc + length xs ≤ u64_max
      → push_from xs acc s ≡ publish_all (map pcm_slot xs) acc s
  unfolding push_from publish_all producer_push_sample
  push_from-publish_all [] acc s h = refl
  push_from-publish_all (x ∷ xs) acc s h =
      let next : sat_add acc 1 ≡ acc + 1 = sat_add-exact acc 1 (omega arith) in
      let s' = (producer_publish s (pcm_slot x)).1 in
      rw (
        next,
        push_from-publish_all xs (acc + 1) s' (omega arith),
        length-map xs (pcm_slot {F = F}),
      )

  gap_from-publish_all :
      (n acc : ℕ) (s : Shared F) → gap_from n acc s ≡ publish_all (replicate n gap_slot) acc s
  unfolding gap_from publish_all
  gap_from-publish_all zero acc s = refl
  gap_from-publish_all (suc n) acc s =
      let s' = (producer_publish s gap_slot).1 in
      rw (gap_from-publish_all n (acc + 1) s', length-replicate n (gap_slot {F = F}))

  -- On a valid ring whose producer is open, with a block of at most 2^64 - 1 samples and room left
  -- in the 64-bit source position, `producer_push` accepts the prefix of the block that fits,
  -- returns its length, puts it canonicalised and under consecutive stamps behind the unread
  -- samples, counts the rest as discarded, and keeps the ring valid and open.
  pub producer_push_lem :
      (s : Shared F) (input : List F)
      → IsValid s
      → IsOpen s
      → length input ≤ u64_max
      → HasRoom s.producer_stamp (length input)
      → ((producer_push s input).0 ≡ min (length input) (space s))
        × Published s (producer_push s input).1 (map pcm_slot input)
  unfolding producer_push
  producer_push_lem s input v o le h =
      let len = length-map input (pcm_slot {F = F}) in
      let all = publish_all_lem (map pcm_slot input) 0 s v o (rw len h) in
      rw (o.free_to_publish, push_from-publish_all input 0 s (omega arith))
        (let e = all.0 in omega arith, all.1)

  -- On a valid ring whose producer is open, and with room left in the 64-bit source position,
  -- `producer_gap` publishes as many missing slots as fit behind the unread samples, under
  -- consecutive stamps, returns their number, counts the rest as discarded, and keeps the ring
  -- valid and open.
  pub producer_gap_lem :
      (s : Shared F) (samples : ℕ)
      → IsValid s
      → IsOpen s
      → HasRoom s.producer_stamp samples
      → ((producer_gap s samples).0 ≡ min samples (space s))
        × Published s (producer_gap s samples).1 (replicate samples gap_slot)
  unfolding producer_gap
  producer_gap_lem s samples v o h =
      let len = length-replicate samples (gap_slot {F = F}) in
      let all = publish_all_lem (replicate samples gap_slot) 0 s v o (rw len h) in
      rw (o.free_to_publish, gap_from-publish_all samples 0 s) (let e = all.0 in omega arith, all.1)

  -- While a finite burst is outstanding, `producer_push` and `producer_gap` accept nothing and
  -- change nothing, the counters included.
  pub pending_gates :
      (s : Shared F) (input : List F) (samples : ℕ)
      → finish_pending s ≡ true
      → (producer_push s input ≡ (0, s)) × (producer_gap s samples ≡ (0, s))
  unfolding producer_push producer_gap
  pending_gates s input samples e = (rw e, rw e)
