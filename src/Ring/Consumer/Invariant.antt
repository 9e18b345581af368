-- ===== src/Ring/Consumer/Invariant.antt =====
-- What holds of the consumer's state between two calls, and that gathering input keeps it: every index
-- into the workspaces is in range, and every sample taken from the ring is accepted or pending.
use rate_adjusting_pcm_ring.Common.{
  ℕ, zero, suc, ◌+◌, ◌-◌, ◌^◌, ◌≤◌, ◌<◌, ◌≡◌, ◌≢◌, inl, inr, refl, ap, ◌∙◌, List, [], ◌∷◌, Option,
  none, some, Bool, true, false, Bool-cases, ◌||◌, Option-cases, arith, length, length-set,
  length-append, length-take, length-drop, take, drop, ◌==◌, leb, sat_add,
}
use rate_adjusting_pcm_ring.Float.{Single}
use rate_adjusting_pcm_ring.Mute.Types.{Stamp, Position}
use rate_adjusting_pcm_ring.Ring.State.{Finite}
use rate_adjusting_pcm_ring.Ring.Consumer.Finite.{remaining_of}
use rate_adjusting_pcm_ring.Plc.State.{Plc}
use rate_adjusting_pcm_ring.Plc.Sound.{IsSound as PlcIsSound}
use rate_adjusting_pcm_ring.Mute.History.Sorted.{IsValid as HistoryIsValid}
use rate_adjusting_pcm_ring.Ring.Settings.{converter_quantum}
use rate_adjusting_pcm_ring.Ring.State.{
  Ring, Shared, ConsumerState, SourceSample, GapSpan, consumer_take_source_sample,
}
use rate_adjusting_pcm_ring.Ring.State.Queue.{IsValid, take_refines}
use rate_adjusting_pcm_ring.Ring.Consumer.Monad.{Outcome, continue, Step, >>=_inv}
use rate_adjusting_pcm_ring.Ring.Consumer.Input.{
  extend_last, note_gap, accept_stamp, gaps_after, append_input, admit, make_input_space, fill_from,
  fill_round,
}

-- The slot of the lookahead that is due is in range, and there is a concealment exactly if there is a
-- lookahead; it is sound (that of a 32-bit sample rate is shorter than 2^32).
abbrev pub IsConcealed : {F : Type 0} → Option (Plc F) → List (Option Position) → ℕ → Type 0
IsConcealed none positions slot = length positions ≡ 0
IsConcealed (some plc) positions slot =
    (slot < length positions) × (length positions < 2 ^ 32 → PlcIsSound plc)

-- A burst that drains has no more samples left than the lookahead holds.
abbrev pub IsDrainable : Option Finite → List (Option Position) → Type 0
IsDrainable none positions = Unit {0}
IsDrainable (some finite) positions =
    remaining_of finite.plc_remaining (length positions) ≤ length positions

-- What of the source input is pending.
abbrev pub pending_source : Bool → ℕ → ℕ
pending_source true n = 0
pending_source false n = n

pub record IsSound {F R C : Type 0} (c : ConsumerState F R C) (capacity : ℕ) : Type 0 where
  pub input_size : length c.input ≡ capacity
  pub output_size : length c.output ≡ capacity
  pub input_fits : c.input_offset + c.input_pending ≤ capacity
  pub output_fits : c.output_offset + c.output_pending ≤ converter_quantum
  pub cached : c.output_pending ≢ 0 → c.output_offset + c.output_pending ≡ c.cache_count
  pub accounted :
      c.source_taken ≡ c.source_accepted + pending_source c.input_padding c.input_pending
  pub gaps_fit : length c.gaps ≤ c.gap_capacity
  pub history : HistoryIsValid c.mute_history
  pub drainable : IsDrainable c.finite c.plc_positions
  pub concealed : IsConcealed c.plc c.plc_positions c.plc_position

pub record RingIsValid {F R C : Type 0} (r : Ring F R C) : Type 0 where
  pub shared : IsValid r.shared
  pub consumer : IsSound r.consumer r.shared.capacity

length-extend_last :
    (taken : ℕ) (gaps : List GapSpan) {grown : List GapSpan}
    → extend_last taken gaps ≡ some grown
    → length grown ≡ length gaps
unfolding extend_last
length-extend_last taken [] h = cc
length-extend_last taken (x ∷ []) h = ground arith
length-extend_last taken (x ∷ y ∷ ys) h = elim (Option-cases (extend_last taken (y ∷ ys))) [
  | inl e ↦ let h' = rw e at h in cc
  | inr (rest, e) ↦ let h' = rw e at h in ground (arith, length-extend_last taken (y ∷ ys) e)
]

note_gap-fits :
    (capacity taken : ℕ) (gaps : List GapSpan) {after : List GapSpan}
    → length gaps ≤ capacity
    → note_gap capacity taken gaps ≡ some after
    → length after ≤ capacity
unfolding note_gap
note_gap-fits capacity taken gaps fits h = elim (Option-cases (extend_last taken gaps)) [
  | inl e ↦ ground (arith, length-append gaps (record { start = taken; end = taken + 1 } ∷ []))
  | inr (grown, e) ↦ ground (arith, length-extend_last taken gaps e)
]

module _ {F R C : Type 0} where
  accept_stamp-IsSound :
      (c : ConsumerState F R C) (capacity : ℕ) (stamp : Option Stamp)
      → IsSound c capacity
      → IsSound (accept_stamp c stamp).1 capacity
  unfolding accept_stamp
  accept_stamp-IsSound c capacity none v = v
  accept_stamp-IsSound c capacity (some stamp) v = assumption

  append_input-IsSound :
      (c : ConsumerState F R C) (capacity : ℕ) (pcm : F) (gaps : List GapSpan)
      → IsSound c capacity
      → c.input_offset + c.input_pending < capacity
      → c.input_padding ≡ false
      → length gaps ≤ c.gap_capacity
      → IsSound (append_input c pcm gaps) capacity
  unfolding append_input
  append_input-IsSound c capacity pcm gaps v room p fits = record {
    input_size = length-set c.input (c.input_offset + c.input_pending) pcm ∙ v.input_size;
    output_size = v.output_size;
    input_fits = omega arith;
    output_fits = v.output_fits;
    cached = v.cached;
    accounted = let a = v.accounted in rw p (let a' = rw p at a in omega arith);
    gaps_fit = fits;
    history = v.history;
    drainable = v.drainable;
    concealed = v.concealed;
  }

  pub make_input_space-IsSound :
      (c : ConsumerState F R C) (additional capacity : ℕ)
      → IsSound c capacity
      → c.input_pending + additional ≤ capacity
      → capacity < 2 ^ 64 - 1
      → let c' = make_input_space c additional capacity in
        IsSound c' capacity × (c'.input_offset + c'.input_pending + additional ≤ capacity)
  unfolding make_input_space sat_add
  make_input_space-IsSound c additional capacity v fits small =
      elim (Bool-cases (
        c.input_offset == 0
        || leb (sat_add (sat_add c.input_offset c.input_pending) additional) capacity)) [
          | inl e ↦ rw e (v, ground arith)
          | inr e ↦
              let size = v.input_size in
              let inside = v.input_fits in
              let moved = length-take c.input_pending (drop c.input_offset c.input) in
              let rest = length-drop c.input_pending c.input in
              let behind = length-drop c.input_offset c.input in
              rw e (
                record {
                  input_size =
                      length-append (take c.input_pending (drop c.input_offset c.input))
                        (drop c.input_pending c.input)
                      ∙ omega arith;
                  output_size = v.output_size;
                  input_fits = omega arith;
                  output_fits = v.output_fits;
                  cached = v.cached;
                  accounted = v.accounted;
                  gaps_fit = v.gaps_fit;
                  history = v.history;
                  drainable = v.drainable;
                  concealed = v.concealed;
                },
                omega arith,
              )
        ]

  pub output_pending-make_input_space :
      (c : ConsumerState F R C) (additional capacity : ℕ)
      → (make_input_space c additional capacity).output_pending ≡ c.output_pending
  unfolding make_input_space
  output_pending-make_input_space c additional capacity = ground arith

  -- What a stamp leaves alone.
  accept_stamp_keeps :
      (c : ConsumerState F R C) (stamp : Option Stamp)
      → let c' = (accept_stamp c stamp).1 in
        (c'.input_offset ≡ c.input_offset)
        × (c'.input_pending ≡ c.input_pending)
        × (c'.input_padding ≡ c.input_padding)
  unfolding accept_stamp
  accept_stamp_keeps c none = (refl, refl, refl)
  accept_stamp_keeps c (some stamp) = (refl, refl, refl)

  gaps_after-fits :
      (c : ConsumerState F R C) (missing : Bool) {gaps : List GapSpan}
      → length c.gaps ≤ c.gap_capacity
      → gaps_after c missing ≡ some gaps
      → length gaps ≤ c.gap_capacity
  unfolding gaps_after
  gaps_after-fits c true fits h = note_gap-fits c.gap_capacity c.source_taken c.gaps fits h
  gaps_after-fits c false fits h = ground arith

-- What a round of the input loop leaves: a valid ring, and one more pending sample if it goes on.
record Admitted {F R C : Type 0} (r : Ring F R C) (out : Outcome (Unit {0}) × Ring F R C)
    : Type 0 where
  valid : RingIsValid out.1
  grows :
      out.0 ≡ continue tt
      → (out.1.consumer.input_offset ≡ r.consumer.input_offset)
        × (out.1.consumer.input_pending ≡ r.consumer.input_pending + 1)
        × (out.1.consumer.input_padding ≡ r.consumer.input_padding)
        × (out.1.shared ≡ r.shared)

module _ {F R C : Type 0} where
  admit-Admitted :
      (r : Ring F R C) (sample : SourceSample F)
      → RingIsValid r
      → r.consumer.input_offset + r.consumer.input_pending < r.shared.capacity
      → r.consumer.input_padding ≡ false
      → Admitted r (admit sample r)
  unfolding admit
  admit-Admitted r sample v room p =
      let c = (accept_stamp r.consumer sample.stamp).1 in
      let sound = accept_stamp-IsSound r.consumer r.shared.capacity sample.stamp v.consumer in
      let kept = accept_stamp_keeps r.consumer sample.stamp in
      let stopped : RingIsValid (record r { consumer = c }) = record {
        shared = v.shared;
        consumer = sound;
      } in
      elim (Bool-cases (accept_stamp r.consumer sample.stamp).0) [
        | inr e ↦ rw e (record { valid = stopped; grows = λ h. cc })
        | inl e ↦ elim (Option-cases (gaps_after c sample.missing)) [
          | inl full ↦ rw (e, full) (record { valid = stopped; grows = λ h. cc })
          | inr (gaps, fits) ↦
              rw (e, fits)
                (record {
                  valid = record {
                    shared = v.shared;
                    consumer =
                        append_input-IsSound c r.shared.capacity sample.pcm gaps sound
                          (omega (arith, kept)) (kept.2 ∙ p)
                          (gaps_after-fits c sample.missing sound.gaps_fit fits);
                  };
                  grows =
                      λ h. unfold append_input in (kept.0, ap (λ n. n + 1) kept.1, kept.2, refl);
                })
        ]
      ]

capacity-take :
    {F : Type 0} ⦃single : Single F⦄ (s : Shared F)
    → (consumer_take_source_sample s).1.capacity ≡ s.capacity
unfolding consumer_take_source_sample
capacity-take s = ground arith

module _ {F R C : Type 0} ⦃single : Single F⦄ where
  fill_round-RingIsValid :
      (padding : Bool) (taken : Option (SourceSample F)) (shared : Shared F)
      (rest : Step (Ring F R C) (Unit {0})) (r : Ring F R C)
      → RingIsValid r
      → r.consumer.input_padding ≡ padding
      → RingIsValid (record r { shared = shared })
      → r.consumer.input_offset + r.consumer.input_pending < shared.capacity
      → ((r' : Ring F R C)
          → RingIsValid r'
          → (r'.shared.capacity ≡ shared.capacity)
            × (r'.consumer.input_offset + r'.consumer.input_pending
                ≡ r.consumer.input_offset + r.consumer.input_pending + 1)
          → RingIsValid (rest r').1)
      → RingIsValid (fill_round padding taken shared rest r).1
  unfolding fill_round
  fill_round-RingIsValid true taken shared rest r v p v' room ih = v
  fill_round-RingIsValid false none shared rest r v p v' room ih = v
  fill_round-RingIsValid false (some sample) shared rest r v p v' room ih =
      let r1 : Ring F R C = record r { shared = shared } in
      let one = admit-Admitted r1 sample v' room p in
      >>=_inv RingIsValid (admit sample) (λ _. rest) r1 one.valid
        λ a e.
          let grown = one.grows e in
          ih (admit sample r1).1 one.valid
            (ap (λ (s : Shared F). s.capacity) grown.3, omega (arith, grown))

  -- The loop keeps the ring valid, if the workspace has room for its rounds.
  pub fill_from-RingIsValid :
      (n : ℕ) (r : Ring F R C)
      → RingIsValid r
      → r.consumer.input_offset + r.consumer.input_pending + n ≤ r.shared.capacity
      → RingIsValid (fill_from n r).1
  unfolding fill_from
  fill_from-RingIsValid zero r v room = v
  fill_from-RingIsValid (suc n) r v room =
      let shared' = (consumer_take_source_sample r.shared).1 in
      let same : shared'.capacity ≡ r.shared.capacity = capacity-take r.shared in
      fill_round-RingIsValid r.consumer.input_padding (consumer_take_source_sample r.shared).0
        shared' (fill_from n) r v refl
        (record { shared = (take_refines r.shared v.shared).0; consumer = rw same v.consumer })
        (omega arith) (λ r' v' h. fill_from-RingIsValid n r' v' (omega (arith, h)))

  -- Gathering does not touch the cache.
  output_pending-admit :
      (r : Ring F R C) (sample : SourceSample F)
      → (admit sample r).1.consumer.output_pending ≡ r.consumer.output_pending
  unfolding admit accept_stamp append_input
  output_pending-admit r sample = ground arith

  pub output_pending-fill_from :
      (n : ℕ) (r : Ring F R C)
      → (fill_from n r).1.consumer.output_pending ≡ r.consumer.output_pending
  unfolding fill_from fill_round
  output_pending-fill_from zero r = refl
  output_pending-fill_from (suc n) r =
      through r.consumer.input_padding (consumer_take_source_sample r.shared).0
        (consumer_take_source_sample r.shared).1 (fill_from n) r (output_pending-fill_from n)
    where
      through :
          (padding : Bool) (taken : Option (SourceSample F)) (shared : Shared F)
          (rest : Step (Ring F R C) (Unit {0})) (r : Ring F R C)
          → ((r' : Ring F R C) → (rest r').1.consumer.output_pending ≡ r'.consumer.output_pending)
          → (fill_round padding taken shared rest r).1.consumer.output_pending
            ≡ r.consumer.output_pending
      through true taken shared rest r ih = refl
      through false none shared rest r ih = refl
      through false (some sample) shared rest r ih =
          let r1 : Ring F R C = record r { shared = shared } in
          >>=_inv (λ r'. r'.consumer.output_pending ≡ r.consumer.output_pending) (admit sample)
            (λ _. rest) r1 (output_pending-admit r1 sample)
            (λ a e. ih (admit sample r1).1 ∙ output_pending-admit r1 sample)
