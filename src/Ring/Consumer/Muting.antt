-- ===== src/Ring/Consumer/Muting.antt =====
-- From the mailbox to the history: the loop of `consumer_render_sample` of src/ring.rs that applies the
-- mutes which the producer published.
use rate_adjusting_pcm_ring.Common.{
  ℕ, zero, suc, ◌*◌, ◌≡◌, ◌≤◌, refl, sym, ap, ◌∙◌, List, [], ◌∷◌, none, some, Bool, true, false,
  ◌||◌, Bool-cases, Option-cases, inl, inr, arith, length, if◌then◌else◌,
}
use rate_adjusting_pcm_ring.Mute.Types.{Interval, Position, max_spans}
use rate_adjusting_pcm_ring.Mute.Mailbox.{Mailbox, pop}
use rate_adjusting_pcm_ring.Mute.Mailbox.Refine.{contents, free-add-length, pop_spec, pop_refines}
use rate_adjusting_pcm_ring.Mute.Mailbox.Proper.{IsSound, pop-IsSound}
use rate_adjusting_pcm_ring.Mute.History.{History, insert, muted}
use rate_adjusting_pcm_ring.Mute.History.Sorted.{IsValid, insert-IsValid}
use rate_adjusting_pcm_ring.Mute.History.Coverage.{meets, meets_any, muted-insert}
use rate_adjusting_pcm_ring.Ring.State.{Ring}
use rate_adjusting_pcm_ring.Ring.Consumer.Finite.{drain_mutes}

reorder : (a b c : Bool) → (b || (a || c)) ≡ ((a || b) || c)
reorder true true c = refl
reorder true false c = refl
reorder false b c = refl

-- A mailbox with these unread intervals.
popped :
    (m : Mailbox) {xs : List Interval}
    → IsSound m
    → contents m ≡ xs
    → ((pop m).0 ≡ (pop_spec xs).0) × (contents (pop m).1 ≡ (pop_spec xs).1)
popped m v e =
    let spec = (pop_refines m v.valid).1 in
    (
      sym (ap (λ p. p.0) spec) ∙ ap (λ ys. (pop_spec ys).0) e,
      sym (ap (λ p. p.1) spec) ∙ ap (λ ys. (pop_spec ys).1) e,
    )

module _ {F R C : Type 0} where
  -- The ring once an interval was taken from the mailbox.
  abbrev applied : Ring F R C → Interval → Mailbox → Ring F R C
  applied r x m = record {
    shared = record r.shared { mute_mailbox = m };
    consumer = record r.consumer {
      mute_history = (insert r.consumer.mute_history x).0;
      mute_fault = if (insert r.consumer.mute_history x).1 then r.consumer.mute_fault else true;
    };
  }

  drain_some :
      (n : ℕ) (r : Ring F R C) (x : Interval)
      → (pop r.shared.mute_mailbox).0 ≡ some x
      → drain_mutes (suc n) r ≡ drain_mutes n (applied r x (pop r.shared.mute_mailbox).1)
  unfolding drain_mutes
  drain_some n r x e = rw (drain_mutes, e) refl

  drain_none :
      (n : ℕ) (r : Ring F R C) → (pop r.shared.mute_mailbox).0 ≡ none → drain_mutes (suc n) r ≡ r
  unfolding drain_mutes
  drain_none n r e = rw (drain_mutes, e) refl

  -- A fault stays.
  faulty-drain_mutes :
      (n : ℕ) (r : Ring F R C)
      → r.consumer.mute_fault ≡ true
      → (drain_mutes n r).consumer.mute_fault ≡ true
  unfolding drain_mutes
  faulty-drain_mutes zero r e = e
  faulty-drain_mutes (suc n) r e = elim (Option-cases (pop r.shared.mute_mailbox).0) [
    | inl p ↦ rw (drain_none n r p) e
    | inr (x, p) ↦ rw (drain_some n r x p) (
        faulty-drain_mutes n (applied r x (pop r.shared.mute_mailbox).1)
          (either (insert r.consumer.mute_history x).1 e))
  ]
    where
      either : (b : Bool) {fault : Bool} → fault ≡ true → (if b then fault else true) ≡ true
      either true e = e
      either false e = refl

  -- If no fault is left, no interval was refused.
  accepted-drain_mutes :
      (n : ℕ) (r : Ring F R C) (x : Interval) (m : Mailbox)
      → (drain_mutes n (applied r x m)).consumer.mute_fault ≡ false
      → (insert r.consumer.mute_history x).1 ≡ true
  accepted-drain_mutes n r x m sound = elim (Bool-cases (insert r.consumer.mute_history x).1) [
    | inl e ↦ e
    | inr e ↦ let stuck = faulty-drain_mutes n (applied r x m) (rw e refl) in absurd (cc)
  ]

  empty_drained :
      (n : ℕ) (r : Ring F R C) → (pop r.shared.mute_mailbox).0 ≡ none → drain_mutes n r ≡ r
  unfolding drain_mutes
  empty_drained zero r e = refl
  empty_drained (suc n) r e = drain_none n r e

  drained :
      (xs : List Interval) (n : ℕ) (r : Ring F R C) (pos : Position)
      → IsSound r.shared.mute_mailbox
      → IsValid r.consumer.mute_history
      → pos.low ≤ pos.high
      → contents r.shared.mute_mailbox ≡ xs
      → length xs ≤ n
      → (drain_mutes n r).consumer.mute_fault ≡ false
      → (contents (drain_mutes n r).shared.mute_mailbox ≡ [])
        × (muted (drain_mutes n r).consumer.mute_history (some pos)
            ≡ (meets_any pos xs || muted r.consumer.mute_history (some pos)))
  unfolding pop_spec meets_any
  drained [] n r pos mailbox history le e enough sound =
      rw (empty_drained n r (popped r.shared.mute_mailbox mailbox e).0) (e, refl)
  drained (x ∷ xs) zero r pos mailbox history le e enough sound = absurd (omega arith)
  drained (x ∷ xs) (suc n) r pos mailbox history le e enough sound =
      let (first, rest) = popped r.shared.mute_mailbox mailbox e in
      let m : Mailbox = (pop r.shared.mute_mailbox).1 in
      let h : History = r.consumer.mute_history in
      let (mailbox', proper) = pop-IsSound r.shared.mute_mailbox mailbox in
      let step = drain_some n r x first in
      let sound' = ap (λ (q : Ring F R C). q.consumer.mute_fault) (sym step) ∙ sound in
      let (none_left, muted_then) =
        drained xs n (applied r x m) pos mailbox' (insert-IsValid h x history (proper x first)) le
          rest (omega arith) sound' in
      rw step (
        none_left,
        muted_then
            ∙ (ap (λ b. meets_any pos xs || b)
                  (muted-insert h x pos history (proper x first) le
                    (accepted-drain_mutes n r x m sound'))
                ∙ reorder (meets pos x) (meets_any pos xs) (muted h (some pos))),
      )

  -- The 128 rounds of the loop are enough: unless an interval is refused, which is a mute fault, they
  -- empty a sound mailbox, and an output sample is then muted exactly when it was before or an unread
  -- interval meets it.
  pub muted-drain_mutes :
      (r : Ring F R C) (pos : Position)
      → IsSound r.shared.mute_mailbox
      → IsValid r.consumer.mute_history
      → pos.low ≤ pos.high
      → let r' = drain_mutes (max_spans * 2) r in
        r'.consumer.mute_fault ≡ false
        → (contents r'.shared.mute_mailbox ≡ [])
          × (muted r'.consumer.mute_history (some pos) ≡ (
              meets_any pos (contents r.shared.mute_mailbox)
              || muted r.consumer.mute_history (some pos)))
  muted-drain_mutes r pos mailbox history le =
      drained (contents r.shared.mute_mailbox) (max_spans * 2) r pos mailbox history le refl
        (omega (arith, free-add-length r.shared.mute_mailbox mailbox.valid))
