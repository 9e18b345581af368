-- ===== src/Ring/Consumer/Convert.antt =====
-- `refill_output` of src/ring.rs keeps the ring valid: proofs of its stages.
use rate_adjusting_pcm_ring.Common.{
  ℕ, zero, suc, ◌+◌, ◌-◌, ◌≤◌, ◌≡◌, ◌≢◌, inl, inr, refl, List, [], ◌∷◌, Option, none, some, Bool,
  true, false, Bool-cases, arith, length, ◌==◌, ==_iff, ltb, if◌then◌else◌, div_ceil,
}
use rate_adjusting_pcm_ring.Common.Int.{ℤ, ltb_ℤ}
use rate_adjusting_pcm_ring.Adapter
use rate_adjusting_pcm_ring.Ring.Settings.{converter_quantum}
use rate_adjusting_pcm_ring.Ring.State.{Ring, ConsumerState, GapSpan, RefillResult}
use rate_adjusting_pcm_ring.Ring.Consumer.Monad.{Outcome, continue, stop, or_return, >>=_inv}
use rate_adjusting_pcm_ring.Ring.Consumer.Invariant.{IsSound, RingIsValid, pending_source}
use rate_adjusting_pcm_ring.Ring.Consumer.Refill.{
  check_idle, query_queued, query_delay, drop_passed, locate_gaps, map_gaps, consume_input,
  locate_cache, settle, is_empty, source_position, apply_gaps, describe_cache, billion,
}

-- During a refill the cache is empty.
pub record IsRefilling {F R C : Type 0} (r : Ring F R C) : Type 0 where
  pub valid : RingIsValid r
  pub idle : r.consumer.output_pending ≡ 0

length-drop_passed :
    (position : ℕ) (gaps : List GapSpan) → length (drop_passed position gaps) ≤ length gaps
unfolding drop_passed
length-drop_passed position [] = omega arith
length-drop_passed position (x ∷ xs) = ground (arith, length-drop_passed position xs)

module _ {F R C : Type 0} where
  pub query_queued-IsRefilling : (r : Ring F R C) → IsRefilling r → IsRefilling (query_queued r).1
  unfolding query_queued
  query_queued-IsRefilling r v = through (Adapter.queued_input r.consumer.converter)
    where
      through :
          (q : Option ℕ × Adapter.Converter F R C)
          → IsRefilling
              (or_return RefillResult.adapter_error q.0
                (record r { consumer = record r.consumer { converter = q.1 } })).1
      through (none, c) = assumption
      through (some n, c) = assumption

  pub query_delay-IsRefilling : (r : Ring F R C) → IsRefilling r → IsRefilling (query_delay r).1
  unfolding query_delay
  query_delay-IsRefilling r v = through (Adapter.input_delay r.consumer.converter)
    where
      through :
          (q : Option ℕ × Adapter.Converter F R C)
          → IsRefilling
              (or_return RefillResult.adapter_error q.0
                (record r { consumer = record r.consumer { converter = q.1 } })).1
      through (none, c) = assumption
      through (some n, c) = assumption

  locate_gaps-IsRefilling :
      (r : Ring F R C) (delay : ℕ)
      → IsRefilling r
      → IsRefilling (record r { consumer = locate_gaps r.consumer delay })
  unfolding locate_gaps
  locate_gaps-IsRefilling r delay v =
      let c = r.consumer in
      let accepted = c.source_accepted + c.padding_accepted in
      let s = v.valid.consumer in
      let shorter = length-drop_passed (accepted - div_ceil delay billion) c.gaps in
      let fits = s.gaps_fit in
      elim (Bool-cases (ltb accepted (div_ceil delay billion))) [
        | inl e ↦ rw e v
        | inr e ↦ rw e (record {
          valid = record {
            shared = v.valid.shared;
            consumer = record {
              input_size = s.input_size;
              output_size = s.output_size;
              input_fits = s.input_fits;
              output_fits = s.output_fits;
              cached = s.cached;
              accounted = s.accounted;
              gaps_fit = omega arith;
              history = s.history;
              drainable = s.drainable;
              concealed = s.concealed;
            };
          };
          idle = v.idle;
        })
      ]

  pub check_idle-IsRefilling : (r : Ring F R C) → IsRefilling r → IsRefilling (check_idle r).1
  unfolding check_idle
  check_idle-IsRefilling r v = ground arith

  pub map_gaps-IsRefilling : (r : Ring F R C) → IsRefilling r → IsRefilling (map_gaps r).1
  unfolding map_gaps apply_gaps
  map_gaps-IsRefilling r v =
      let r1 : Ring F R C = record r { consumer = record r.consumer { output_missing = false } } in
      let v1 : IsRefilling r1 = assumption in
      elim (Bool-cases (is_empty r.consumer.gaps)) [
        | inl e ↦ rw e assumption
        | inr e ↦ rw e (
            >>=_inv IsRefilling query_delay apply_gaps r1 (query_delay-IsRefilling r1 v1)
              (λ delay q.
                locate_gaps-IsRefilling (query_delay r1).1 delay (query_delay-IsRefilling r1 v1)))
      ]

  pub consume_input-IsSound :
      (c : ConsumerState F R C) (capacity used : ℕ)
      → IsSound c capacity
      → used ≤ c.input_pending
      → IsSound (consume_input c used) capacity
  unfolding consume_input
  consume_input-IsSound c capacity used v le = record {
    input_size = v.input_size;
    output_size = v.output_size;
    input_fits = let f = v.input_fits in omega arith;
    output_fits = v.output_fits;
    cached = v.cached;
    accounted = let a = v.accounted in accounts c.input_padding a;
    gaps_fit = v.gaps_fit;
    history = v.history;
    drainable = v.drainable;
    concealed = v.concealed;
  }
    where
      accounts :
          (padding : Bool)
          → c.source_taken ≡ c.source_accepted + pending_source padding c.input_pending
          → c.source_taken
            ≡ (if padding then c.source_accepted else c.source_accepted + used)
              + pending_source padding (c.input_pending - used)
      accounts true a = a
      accounts false a = omega arith

  describe_cache-IsRefilling :
      (start : ℤ) (n delay : ℕ) (r : Ring F R C)
      → IsRefilling r
      → IsRefilling (describe_cache start n delay r).1
  unfolding describe_cache
  describe_cache-IsRefilling start n delay r v =
      elim (Bool-cases (ltb_ℤ (source_position r.consumer delay) start)) [
        | inl e ↦ rw e assumption
        | inr e ↦ rw e (record {
          valid = record {
            shared = v.valid.shared;
            consumer = record {
              input_size = v.valid.consumer.input_size;
              output_size = v.valid.consumer.output_size;
              input_fits = v.valid.consumer.input_fits;
              output_fits = v.valid.consumer.output_fits;
              cached = λ busy. absurd (busy v.idle);
              accounted = v.valid.consumer.accounted;
              gaps_fit = v.valid.consumer.gaps_fit;
              history = v.valid.consumer.history;
              drainable = v.valid.consumer.drainable;
              concealed = v.valid.consumer.concealed;
            };
          };
          idle = v.idle;
        })
      ]

  pub locate_cache-IsRefilling :
      (start : ℤ) (n : ℕ) (r : Ring F R C) → IsRefilling r → IsRefilling (locate_cache start n r).1
  unfolding locate_cache
  locate_cache-IsRefilling start zero r v = v
  locate_cache-IsRefilling start (suc n) r v =
      >>=_inv IsRefilling query_delay (describe_cache start (suc n)) r (query_delay-IsRefilling r v)
        (λ delay q.
          describe_cache-IsRefilling start (suc n) delay (query_delay r).1
            (query_delay-IsRefilling r v))

  cache_count-describe_cache :
      (start : ℤ) (n delay : ℕ) (r : Ring F R C)
      → (describe_cache start n delay r).0 ≡ continue tt
      → (describe_cache start n delay r).1.consumer.cache_count ≡ n
  unfolding describe_cache
  cache_count-describe_cache start n delay r h =
      elim (Bool-cases (ltb_ℤ (source_position r.consumer delay) start)) [
        | inl e ↦ let h' = rw e at h in cc
        | inr e ↦ rw e
      ]

  -- A refill goes on behind a conversion only with the size of the new cache noted.
  pub cache_count-locate_cache :
      (start : ℤ) (n : ℕ) (r : Ring F R C)
      → (locate_cache start n r).0 ≡ continue tt
      → n ≢ 0
      → (locate_cache start n r).1.consumer.cache_count ≡ n
  unfolding locate_cache
  cache_count-locate_cache start zero r h ne = absurd (ne refl)
  cache_count-locate_cache start (suc n) r h ne = through (query_delay r) h
    where
      through :
          (q : Outcome ℕ × Ring F R C)
          → (elim q.0 as (λ o. Outcome (Unit {0}) × Ring F R C) [
            | continue a ↦ describe_cache start (suc n) a q.1
            | stop e ↦ (stop e, q.1)
          ]).0
            ≡ continue tt
          → (elim q.0 as (λ o. Outcome (Unit {0}) × Ring F R C) [
            | continue a ↦ describe_cache start (suc n) a q.1
            | stop e ↦ (stop e, q.1)
          ]).1.consumer.cache_count
            ≡ suc n
      through (continue a, r') h = cache_count-describe_cache start (suc n) a r' h
      through (stop e, r') h = cc

  pub settle-RingIsValid :
      (used generated : ℕ) (r : Ring F R C)
      → IsRefilling r
      → generated ≤ converter_quantum
      → (generated ≢ 0 → r.consumer.cache_count ≡ generated)
      → RingIsValid (settle used generated r).1
  unfolding settle
  settle-RingIsValid used generated r v le counted =
      let s = v.valid.consumer in
      let fits = s.input_fits in
      let inside : (if r.consumer.input_pending == 0 then 0 else r.consumer.input_offset)
            + r.consumer.input_pending
          ≤ r.shared.capacity =
        ground arith in
      elim (Bool-cases (generated == 0)) [
        | inl e ↦
            let none_made = (==_iff generated 0).0 e in
            rw e (record {
              shared = v.valid.shared;
              consumer = record {
                input_size = s.input_size;
                output_size = s.output_size;
                input_fits = inside;
                output_fits = omega arith;
                cached = λ busy. absurd (busy none_made);
                accounted = s.accounted;
                gaps_fit = s.gaps_fit;
                history = s.history;
                drainable = s.drainable;
                concealed = s.concealed;
              };
            })
        | inr e ↦ rw e (record {
          shared = v.valid.shared;
          consumer = record {
            input_size = s.input_size;
            output_size = s.output_size;
            input_fits = inside;
            output_fits = omega arith;
            cached = λ busy. let k = counted busy in omega arith;
            accounted = s.accounted;
            gaps_fit = s.gaps_fit;
            history = s.history;
            drainable = s.drainable;
            concealed = s.concealed;
          };
        })
      ]
