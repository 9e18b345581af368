-- ===== src/Mute/History/Coverage.antt =====
-- Which source positions a `History` mutes: `insert` adds exactly its interval, `retire` forgets
-- only what has been played, and `muted` finds an entry whenever there is one.
use rate_adjusting_pcm_ring.Common.{
  ℕ, zero, suc, ◌≤◌, ◌≡◌, inl, inr, refl, List, [], ◌∷◌, some, arith, Bool, true, false, not, ◌&&◌,
  ◌||◌, Bool-cases, length, ltb, leb, ◌==◌, All, ap, ◌∙◌,
}
use rate_adjusting_pcm_ring.Mute.Types.{Interval, Position}
use rate_adjusting_pcm_ring.Mute.History.{
  History, touches, merge, absorb, partition_point, insert_at, before, insert, muted, upto, decides,
  entry_before, retire_front, retire,
}
use rate_adjusting_pcm_ring.Mute.History.Sorted.{IsProper, After, IsSorted, IsValid, insert-IsValid}

-- A source sample of a generation lies in an interval.
unfoldable pub inside : ℕ → ℕ → Interval → Bool
inside g p x = x.generation == g && leb x.span.start p && ltb p x.span.end

-- It lies in some entry.
unfoldable pub covers : ℕ → ℕ → List Interval → Bool
unfolding inside
covers g p [] = false
covers g p (x ∷ xs) = inside g p x || covers g p xs

abbrev AllProper : List Interval → Type 0
AllProper = All IsProper

IsSorted-AllProper : (xs : List Interval) → IsSorted xs → AllProper xs
IsSorted-AllProper [] s = tt
IsSorted-AllProper (x ∷ xs) (p, a, s) = (p, IsSorted-AllProper xs s)

-- Merging two proper intervals that touch covers what the two covered.
inside-merge :
    (g p : ℕ) (x y : Interval)
    → IsProper x
    → IsProper y
    → touches y x ≡ true
    → inside g p (merge x y) ≡ (inside g p x || inside g p y)
unfolding inside merge touches
inside-merge g p x y hx hy t = ground arith

merge-IsProper : (x y : Interval) → IsProper x → IsProper y → IsProper (merge x y)
unfolding merge
merge-IsProper x y hx hy = omega arith

or_swap : (a b c : Bool) → ((a || b) || c) ≡ (a || (b || c))
or_swap a b c = ground arith

or_middle : (a b c : Bool) → (a || (b || c)) ≡ (b || (a || c))
or_middle a b c = ground arith

-- A test of entries that a merge takes to the disjunction, and its disjunction over a list.
module _ (test : Interval → Bool) where
  abbrev any : List Interval → Bool
  any [] = false
  any (x ∷ xs) = test x || any xs

  any-insert_at :
      (i : ℕ) (x : Interval) (ys : List Interval) → any (insert_at i x ys) ≡ (test x || any ys)
  unfolding insert_at
  any-insert_at zero x ys = refl
  any-insert_at (suc i) x [] = refl
  any-insert_at (suc i) x (y ∷ ys) =
      ap (λ b. test y || b) (any-insert_at i x ys) ∙ or_middle (test y) (test x) (any ys)

  module _
      (test-merge : (x y : Interval)
        → IsProper x
        → IsProper y
        → touches y x ≡ true
        → test (merge x y) ≡ (test x || test y)) where
    any-absorb :
        (x : Interval) (ys : List Interval)
        → IsProper x
        → AllProper ys
        → (test (absorb x ys).0 || any (absorb x ys).1) ≡ (test x || any ys)
    unfolding absorb
    any-absorb x [] hx hy = refl
    any-absorb x (y ∷ ys) hx (h, hs) = elim (Bool-cases (touches y x)) [
      | inl t ↦ rw t (
          any-absorb (merge x y) ys (merge-IsProper x y hx h) hs
          ∙ (ap (λ b. b || any ys) (test-merge x y hx h t) ∙ or_swap (test x) (test y) (any ys)))
      | inr t ↦ rw t (
          or_middle (test (absorb x ys).0) (test y) (any (absorb x ys).1)
          ∙ (ap (λ b. test y || b) (any-absorb x ys hx hs) ∙ or_middle (test y) (test x) (any ys)))
    ]

    any-insert :
        (h : History) (x : Interval)
        → IsValid h
        → IsProper x
        → (insert h x).1 ≡ true
        → any (insert h x).0.entries ≡ (test x || any h.entries)
    unfolding insert
    any-insert h x v hx ok =
        let (grown, kept) = absorb x h.entries in
        elim (Bool-cases (length kept == h.capacity)) [
          | inl e ↦ let ok' = rw e at ok in cc
          | inr e ↦ rw e (
              any-insert_at (partition_point (before grown) kept) grown kept
              ∙ any-absorb x h.entries hx (IsSorted-AllProper h.entries v.sorted))
        ]

covers-any : (g p : ℕ) (xs : List Interval) → covers g p xs ≡ any (inside g p) xs
unfolding covers
covers-any g p [] = refl
covers-any g p (x ∷ xs) = ap (λ b. inside g p x || b) (covers-any g p xs)

-- An accepted `insert` mutes exactly the source samples that were muted before and those of the
-- interval, whatever it merged.
pub covers-insert :
    (h : History) (x : Interval) (generation sample : ℕ)
    → IsValid h
    → IsProper x
    → (insert h x).1 ≡ true
    → covers generation sample (insert h x).0.entries
      ≡ (inside generation sample x || covers generation sample h.entries)
covers-insert h x g p v hx ok =
    rw (covers-any g p (insert h x).0.entries, covers-any g p h.entries)
      (any-insert (inside g p) (inside-merge g p) h x v hx ok)

-- An entry that `retire` drops covers nothing from the played position on.
dropped :
    (pos : Position) (p : ℕ) (x : Interval)
    → pos.low ≤ p
    → (not (x.generation == pos.generation) || leb x.span.end pos.low) ≡ true
    → inside pos.generation p x ≡ false
unfolding inside
dropped pos p x h e = ground arith

covers-retire_front :
    (pos : Position) (p : ℕ) (xs : List Interval)
    → pos.low ≤ p
    → covers pos.generation p (retire_front pos xs) ≡ covers pos.generation p xs
unfolding covers retire_front
covers-retire_front pos p [] h = refl
covers-retire_front pos p (x ∷ xs) h =
    elim (Bool-cases (not (x.generation == pos.generation) || leb x.span.end pos.low)) [
      | inl e ↦ rw (e, dropped pos p x h e) (covers-retire_front pos p xs h)
      | inr e ↦ rw e
    ]

-- Once a position has been played, `retire` forgets no mute at it or after it in its generation.
pub covers-retire :
    (h : History) (pos : Position) (sample : ℕ)
    → pos.low ≤ sample
    → covers pos.generation sample (retire h (some pos)).entries
      ≡ covers pos.generation sample h.entries
unfolding retire
covers-retire h pos p le = covers-retire_front pos p h.entries le

-- The interval meets the source support of an output sample.
unfoldable pub meets : Position → Interval → Bool
meets pos x = x.generation == pos.generation && leb x.span.start pos.high && ltb pos.low x.span.end

-- Some entry meets it.
unfoldable pub meets_any : Position → List Interval → Bool
unfolding meets
meets_any pos [] = false
meets_any pos (x ∷ xs) = meets pos x || meets_any pos xs

meets-upto : (pos : Position) (x : Interval) → upto pos x ≡ false → meets pos x ≡ false
unfolding upto meets
meets-upto pos x h = ground arith

upto-After :
    (pos : Position) (x y : Interval)
    → IsProper x
    → After x y
    → upto pos x ≡ false
    → upto pos y ≡ false
unfolding upto
upto-After pos x y px a h = ground arith

none_upto :
    (pos : Position) (x : Interval) (xs : List Interval)
    → IsProper x
    → upto pos x ≡ false
    → All (After x) xs
    → meets_any pos xs ≡ false
unfolding meets_any
none_upto pos x [] px h a = refl
none_upto pos x (y ∷ ys) px h (b, bs) =
    rw (meets-upto pos y (upto-After pos x y px b h)) (none_upto pos x ys px h bs)

decides-meets :
    (pos : Position) (x : Interval) → upto pos x ≡ true → decides pos (some x) ≡ meets pos x
unfolding decides meets upto
decides-meets pos x h = ground arith

-- If an entry meets the support, the next entry up to the partition point meets it too.
meets_next :
    (pos : Position) (x y : Interval)
    → IsProper y
    → After x y
    → upto pos y ≡ true
    → meets pos x ≡ true
    → meets pos y ≡ true
unfolding upto meets
meets_next pos x y py a u m = ground arith

or_absorb : (a b c : Bool) → (a ≡ true → b ≡ true) → (b || c) ≡ (a || (b || c))
or_absorb true b c h = rw (h refl)
or_absorb false b c h = refl

or_false : (a : Bool) → a ≡ (a || false)
or_false true = refl
or_false false = refl

found :
    (pos : Position) (xs : List Interval)
    → IsSorted xs
    → decides pos (entry_before xs (partition_point (upto pos) xs)) ≡ meets_any pos xs
unfolding entry_before partition_point meets_any
found pos [] s = unfold decides in refl
found pos (x ∷ []) (px, a, s) = elim (Bool-cases (upto pos x)) [
  | inl u ↦ rw u (decides-meets pos x u ∙ or_false (meets pos x))
  | inr u ↦ rw (u, meets-upto pos x u) (unfold decides in refl)
]
found pos (x ∷ y ∷ ys) (px, (a, later), s) = elim (Bool-cases (upto pos x)) [
  | inr u ↦
      rw (u, meets-upto pos x u, none_upto pos x (y ∷ ys) px u (a, later)) (unfold decides in refl)
  | inl u ↦ elim (Bool-cases (upto pos y)) [
    | inr w ↦
        rw (u, w, meets-upto pos y w, none_upto pos y ys s.0 w s.1)
          (decides-meets pos x u ∙ or_false (meets pos x))
    | inl w ↦
        let ih = rw w at (found pos (y ∷ ys) s) in
        rw (u, w)
          (ih
            ∙ or_absorb (meets pos x) (meets pos y) (meets_any pos ys) (meets_next pos x y s.0 a w))
  ]
]

-- The binary search of `muted` answers as a scan of all entries would: an output sample is muted
-- exactly when some entry of its generation meets its source support.
pub muted-meets_any :
    (h : History) (pos : Position) → IsValid h → muted h (some pos) ≡ meets_any pos h.entries
unfolding muted
muted-meets_any h pos v = found pos h.entries v.sorted

meets-merge :
    (pos : Position)
    → pos.low ≤ pos.high
    → (x y : Interval) → IsProper x
    → IsProper y
    → touches y x ≡ true
    → meets pos (merge x y) ≡ (meets pos x || meets pos y)
unfolding meets merge touches
meets-merge pos h x y hx hy t = ground arith

meets_any-any : (pos : Position) (xs : List Interval) → meets_any pos xs ≡ any (meets pos) xs
unfolding meets_any
meets_any-any pos [] = refl
meets_any-any pos (x ∷ xs) = ap (λ b. meets pos x || b) (meets_any-any pos xs)

-- A late interval takes effect at once: after an accepted `insert` an output sample is muted exactly
-- when it was muted before or the new interval meets its source support.
pub muted-insert :
    (h : History) (x : Interval) (pos : Position)
    → IsValid h
    → IsProper x
    → pos.low ≤ pos.high
    → (insert h x).1 ≡ true
    → muted (insert h x).0 (some pos) ≡ (meets pos x || muted h (some pos))
muted-insert h x pos v hx le ok =
    rw
      (
        muted-meets_any (insert h x).0 pos (insert-IsValid h x v hx),
        muted-meets_any h pos v,
        meets_any-any pos (insert h x).0.entries,
        meets_any-any pos h.entries,
      )
      (any-insert (meets pos) (meets-merge pos le) h x v hx ok)
