-- ===== src/Mute/History/Retired.antt =====
-- What `retire` of src/mute.rs leaves of the union of played mutes.
use rate_adjusting_pcm_ring.Common.{
  ◌<◌, ◌≡◌, ◌⊎◌, inl, inr, List, [], ◌∷◌, some, false, not, ◌||◌, Bool-cases, All, arith, leb, ◌==◌,
}
use rate_adjusting_pcm_ring.Mute.Types.{Interval, Position}
use rate_adjusting_pcm_ring.Mute.History.{History, retire_front, retire}
use rate_adjusting_pcm_ring.Mute.History.Sorted.{IsProper, After, IsSorted, IsValid, retire-IsValid}

-- The interval can still meet an output sample of the position's generation that is to come, or it is of
-- a later generation.
abbrev pub IsToCome : Position → Interval → Type 0
IsToCome p x =
    (p.generation < x.generation) ⊎ ((x.generation ≡ p.generation) × (p.low < x.span.end))

later-IsToCome :
    (p : Position) (x y : Interval) → IsToCome p x → After x y → IsProper y → IsToCome p y
later-IsToCome p x y h a py = omega arith

All-IsToCome :
    (p : Position) (x : Interval) (ys : List Interval)
    → IsToCome p x
    → All (After x) ys
    → IsSorted ys
    → All (IsToCome p) ys
All-IsToCome p x [] h a s = tt
All-IsToCome p x (y ∷ ys) h (a, as') (py, later, s) =
    (later-IsToCome p x y h a py, All-IsToCome p x ys h as' s)

front-IsToCome :
    (p : Position) (x : Interval)
    → (not (x.generation == p.generation) || leb x.span.end p.low) ≡ false
    → IsToCome p x
front-IsToCome p x e = ground arith

retire_front-IsToCome :
    (p : Position) (xs : List Interval) → IsSorted xs → All (IsToCome p) (retire_front p xs)
unfolding retire_front
retire_front-IsToCome p [] s = tt
retire_front-IsToCome p (x ∷ xs) (px, later, s) =
    elim (Bool-cases (not (x.generation == p.generation) || leb x.span.end p.low)) [
      | inl e ↦ rw e (retire_front-IsToCome p xs s)
      | inr e ↦ let first = front-IsToCome p x e in rw e (first, All-IsToCome p x xs first later s)
    ]

-- Once a position was played, `retire` keeps a valid union valid, and leaves in it only intervals that end
-- behind the position in its generation, or are of a later generation: what was played makes room.
pub retire_lem :
    (h : History) (p : Position)
    → IsValid h
    → IsValid (retire h (some p)) × All (IsToCome p) (retire h (some p)).entries
unfolding retire
retire_lem h p v = (retire-IsValid h (some p) v, retire_front-IsToCome p h.entries v.sorted)
