-- ===== src/Mute/Mailbox/Proper.antt =====
-- Every interval that waits in the mailbox is non-empty, which the history relies on: `publish` drops
-- the spans that the accepted source end empties.
use rate_adjusting_pcm_ring.Common.{
  min, ap, ◌∙◌, ℕ, ◌≤◌, ◌≡◌, sym, subst, List, [], ◌∷◌, ◌++◌, some, length, All, ltb, ltb→lt,
  Bool-cases, inl, inr,
}
use rate_adjusting_pcm_ring.Mute.Types.{Span, Interval}
use rate_adjusting_pcm_ring.Mute.Mailbox.{Mailbox, new, free, publish, pop, reset}
use rate_adjusting_pcm_ring.Mute.Mailbox.Refine.{
  IsValid, contents, clipped_batch, new-IsValid, publish_refines, pop_spec, pop_refines,
  reset_empties,
}
use rate_adjusting_pcm_ring.Mute.History.Sorted.{IsProper}

pub record IsSound (m : Mailbox) : Type 0 where
  pub valid : IsValid m
  pub proper : All IsProper (contents m)

All-append {ℓ κ} :
    {A : Type ℓ} (P : A → Type κ) (xs ys : List A) → All P xs → All P ys → All P (xs ++ ys)
All-append P [] ys h k = k
All-append P (x ∷ xs) ys (p, h) k = (p, All-append P xs ys h k)

clipped_batch-IsProper :
    (generation end : ℕ) (spans : List Span) → All IsProper (clipped_batch generation end spans)
unfolding clipped_batch
clipped_batch-IsProper generation end [] = tt
clipped_batch-IsProper generation end (s ∷ ss) =
    let rest = clipped_batch-IsProper generation end ss in
    elim (Bool-cases (ltb s.start (min s.end end))) [
      | inl e ↦ rw e (ltb→lt s.start (min s.end end) e, rest)
      | inr e ↦ rw e rest
    ]

pub new-IsSound : IsSound new
new-IsSound = record { valid = new-IsValid.0; proper = subst (All IsProper) (sym new-IsValid.1) tt }

pub publish-IsSound :
    (m : Mailbox) (generation : ℕ) (spans : List Span) (end : ℕ)
    → IsSound m
    → length spans ≤ free m
    → IsSound (publish m generation spans end)
publish-IsSound m generation spans end v room =
    let (ok, appended) = publish_refines m generation spans end v.valid room in
    record {
      valid = ok;
      proper = subst (All IsProper) (sym appended) (
          All-append IsProper (contents m) (clipped_batch generation end spans) v.proper
            (clipped_batch-IsProper generation end spans));
    }

-- What `pop` leaves is sound, and what it takes is not empty.
pub pop-IsSound :
    (m : Mailbox)
    → IsSound m
    → IsSound (pop m).1 × ((x : Interval) → (pop m).0 ≡ some x → IsProper x)
unfolding pop_spec
pop-IsSound m v =
    let (ok, spec) = pop_refines m v.valid in
    let (first, rest) = spec_proper (contents m) v.proper in
    (
      record { valid = ok; proper = subst (All IsProper) (ap (λ p. p.1) spec) rest },
      λ x e. first x (ap (λ p. p.0) spec ∙ e),
    )
  where
    spec_proper :
        (xs : List Interval)
        → All IsProper xs
        → ((x : Interval) → (pop_spec xs).0 ≡ some x → IsProper x) × All IsProper (pop_spec xs).1
    spec_proper [] h = (λ x e. cc, tt)
    spec_proper (y ∷ ys) (p, h) = (λ x e. let same : y ≡ x = cc in subst IsProper same p, h)

pub reset-IsSound : (m : Mailbox) → IsSound m → IsSound (reset m)
reset-IsSound m v =
    let (ok, empty) = reset_empties m v.valid in
    record { valid = ok; proper = subst (All IsProper) (sym empty) tt }
