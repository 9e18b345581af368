-- ===== src/Mute/History/Sorted.antt =====
-- `History` stays sorted by generation and start, its spans non-empty, apart and within capacity.
use rate_adjusting_pcm_ring.Common.{
  ℕ, ◌+◌, ◌≤◌, ◌<◌, ◌≡◌, ◌≢◌, ◌⊎◌, inl, inr, refl, List, [], ◌∷◌, Option, none, some, arith, true,
  false, Bool-cases, length, not, ◌||◌, ==_iff, leb, ◌==◌, if◌then◌else◌, All, All-imp, ap,
}
use rate_adjusting_pcm_ring.Mute.Types.{Interval, Position}
use rate_adjusting_pcm_ring.Mute.History.{
  History, new, clear, touches, merge, absorb, partition_point, insert_at, before, insert,
  retire_front, retire,
}

abbrev pub IsProper : Interval → Type 0
IsProper x = x.span.start < x.span.end

-- `y` stands to the right of `x`, with a gap if they share a generation.
abbrev pub After : Interval → Interval → Type 0
After x y =
    (x.generation < y.generation) ⊎ ((x.generation ≡ y.generation) × (x.span.end < y.span.start))

abbrev pub IsSorted : List Interval → Type 0
IsSorted [] = Unit {0}
IsSorted (x ∷ xs) = IsProper x × All (After x) xs × IsSorted xs

pub record IsValid (h : History) : Type 0 where
  pub sorted : IsSorted h.entries
  pub bounded : length h.entries ≤ h.capacity

-- Two intervals that no merge joins.
abbrev Apart : Interval → Interval → Type 0
Apart x y =
    (x.generation ≢ y.generation) ⊎ (x.span.end < y.span.start) ⊎ (y.span.end < x.span.start)

not_touching : (x y : Interval) → touches x y ≡ false → Apart x y
unfolding touches
not_touching x y h = ground arith

merge-IsProper : (x y : Interval) → IsProper x → IsProper y → IsProper (merge x y)
unfolding merge
merge-IsProper x y hx hy = omega arith

-- An entry apart from the interval stays apart when a later entry is merged into it.
merge-Apart :
    (o x y : Interval)
    → IsProper o
    → Apart o x
    → After o y
    → touches y x ≡ true
    → Apart o (merge x y)
unfolding merge touches
merge-Apart o x y ho a b t = ground arith

absorb-Apart :
    (o x : Interval) (ys : List Interval)
    → IsProper o
    → Apart o x
    → All (After o) ys
    → Apart o (absorb x ys).0
unfolding absorb
absorb-Apart o x [] ho a b = a
absorb-Apart o x (y ∷ ys) ho a (b, bs) = elim (Bool-cases (touches y x)) [
  | inl t ↦ rw t (absorb-Apart o (merge x y) ys ho (merge-Apart o x y ho a b t) bs)
  | inr t ↦ rw t (absorb-Apart o x ys ho a bs)
]

absorb-All {κ} :
    (P : Interval → Type κ) (x : Interval) (ys : List Interval) → All P ys → All P (absorb x ys).1
unfolding absorb
absorb-All P x [] h = tt
absorb-All P x (y ∷ ys) (p, ps) = elim (Bool-cases (touches y x)) [
  | inl t ↦ rw t (absorb-All P (merge x y) ys ps)
  | inr t ↦ rw t (p, absorb-All P x ys ps)
]

absorb-IsProper :
    (x : Interval) (ys : List Interval) → IsProper x → IsSorted ys → IsProper (absorb x ys).0
unfolding absorb
absorb-IsProper x [] hx s = hx
absorb-IsProper x (y ∷ ys) hx (p, a, s) = elim (Bool-cases (touches y x)) [
  | inl t ↦ rw t (absorb-IsProper (merge x y) ys (merge-IsProper x y hx p) s)
  | inr t ↦ rw t (absorb-IsProper x ys hx s)
]

absorb-IsSorted : (x : Interval) (ys : List Interval) → IsSorted ys → IsSorted (absorb x ys).1
unfolding absorb
absorb-IsSorted x [] s = tt
absorb-IsSorted x (y ∷ ys) (p, a, s) = elim (Bool-cases (touches y x)) [
  | inl t ↦ rw t (absorb-IsSorted (merge x y) ys s)
  | inr t ↦ rw t (p, absorb-All (After y) x ys a, absorb-IsSorted x ys s)
]

-- The grown interval touches none of the entries that stay.
absorb_separates :
    (x : Interval) (ys : List Interval)
    → IsSorted ys
    → All (λ o. Apart o (absorb x ys).0) (absorb x ys).1
unfolding absorb
absorb_separates x [] s = tt
absorb_separates x (y ∷ ys) (p, a, s) = elim (Bool-cases (touches y x)) [
  | inl t ↦ rw t (absorb_separates (merge x y) ys s)
  | inr t ↦ rw t (absorb-Apart y x ys p (not_touching y x t) a, absorb_separates x ys s)
]

pub length-absorb : (x : Interval) (ys : List Interval) → length (absorb x ys).1 ≤ length ys
unfolding absorb
length-absorb x [] = omega arith
length-absorb x (y ∷ ys) = elim (Bool-cases (touches y x)) [
  | inl t ↦ rw t (omega (arith, length-absorb (merge x y) ys))
  | inr t ↦ rw t (omega (arith, length-absorb x ys))
]

-- Where nothing was removed nothing changed.
pub absorb_full :
    (x : Interval) (ys : List Interval) → length (absorb x ys).1 ≡ length ys → (absorb x ys).1 ≡ ys
unfolding absorb
absorb_full x [] h = refl
absorb_full x (y ∷ ys) h = elim (Bool-cases (touches y x)) [
  | inl t ↦ let h' = rw t at h in absurd (omega (arith, length-absorb (merge x y) ys))
  | inr t ↦ let h' = rw t at h in rw t (ap (λ z. y ∷ z) (absorb_full x ys (omega arith)))
]

-- Insertion at the partition point.
pub place : Interval → List Interval → List Interval
unfolding partition_point insert_at
place g xs = insert_at (partition_point (before g) xs) g xs

place-cons :
    (g x : Interval) (xs : List Interval)
    → place g (x ∷ xs) ≡ (if before g x then x ∷ place g xs else g ∷ x ∷ xs)
unfolding place
place-cons g x xs = elim (Bool-cases (before g x)) [ inl e ↦ rw e | inr e ↦ rw e ]

place-All {κ} :
    (P : Interval → Type κ) (g : Interval) (xs : List Interval)
    → P g
    → All P xs
    → All P (place g xs)
unfolding place
place-All P g [] h hs = (h, tt)
place-All P g (x ∷ xs) h (p, ps) = elim (Bool-cases (before g x)) [
  | inl e ↦ rw e (p, place-All P g xs h ps)
  | inr e ↦ rw e (h, (p, ps))
]

before-After : (g x : Interval) → IsProper g → Apart x g → before g x ≡ true → After x g
unfolding before
before-After g x pg a b = ground arith

not_before-After : (g x : Interval) → IsProper x → Apart x g → before g x ≡ false → After g x
unfolding before
not_before-After g x px a b = ground arith

After-trans : (x y z : Interval) → IsProper y → After x y → After y z → After x z
After-trans x y z py a b = omega arith

place-IsSorted :
    (g : Interval) (xs : List Interval)
    → IsProper g
    → IsSorted xs
    → All (λ o. Apart o g) xs
    → IsSorted (place g xs)
unfolding place
place-IsSorted g [] pg s a = (pg, tt, tt)
place-IsSorted g (x ∷ xs) pg (p, later, s) (a, rest) = elim (Bool-cases (before g x)) [
  | inl e ↦
      rw e
        (p, place-All (After x) g xs (before-After g x pg a e) later, place-IsSorted g xs pg s rest)
  | inr e ↦
      let first = not_before-After g x p a e in
      rw e (pg, (first, All-imp (λ y h. After-trans g x y p first h) xs later), (p, later, s))
]

length-place : (g : Interval) (xs : List Interval) → length (place g xs) ≡ length xs + 1
unfolding place
length-place g [] = omega arith
length-place g (x ∷ xs) = elim (Bool-cases (before g x)) [
  | inl e ↦ rw e (omega (arith, length-place g xs))
  | inr e ↦ rw e (omega arith)
]

-- Inserting a non-empty interval keeps a valid union sorted, its spans proper and pairwise apart,
-- and within its capacity.
pub insert-IsValid : (h : History) (x : Interval) → IsValid h → IsProper x → IsValid (insert h x).0
unfolding insert place
insert-IsValid h x v px =
    let (g, kept) = absorb x h.entries in
    let kept_sorted = absorb-IsSorted x h.entries v.sorted in
    let shrinks = length-absorb x h.entries in
    let b = v.bounded in
    elim (Bool-cases (length kept == h.capacity)) [
      | inl e ↦ rw e (record { sorted = kept_sorted; bounded = omega arith })
      | inr e ↦ rw e (record {
        sorted =
            place-IsSorted g kept (absorb-IsProper x h.entries px v.sorted) kept_sorted
              (absorb_separates x h.entries v.sorted);
        bounded =
            let ne : length kept ≢ h.capacity = λ p. cc (e, (==_iff _ _).1 p) in
            omega (arith, length-place g kept);
      })
    ]

-- When `insert` refuses an interval, a valid union is at its capacity and stays what it was.
pub insert_refused :
    (h : History) (x : Interval)
    → IsValid h
    → (insert h x).1 ≡ false
    → ((insert h x).0 ≡ h) × (length h.entries ≡ h.capacity)
unfolding insert
insert_refused h x v e = elim (Bool-cases (length (absorb x h.entries).1 == h.capacity)) [
  | inl full ↦
      let at_cap = (==_iff _ _).0 full in
      let b = v.bounded in
      let same : length (absorb x h.entries).1 ≡ length h.entries =
        omega (arith, length-absorb x h.entries) in
      rw full (ap (λ k. record h { entries = k }) (absorb_full x h.entries same), omega arith)
  | inr room ↦ let e' = rw room at e in cc
]

retire_front-IsSorted :
    (p : Position) (xs : List Interval) → IsSorted xs → IsSorted (retire_front p xs)
unfolding retire_front
retire_front-IsSorted p [] s = tt
retire_front-IsSorted p (x ∷ xs) s =
    elim (Bool-cases (not (x.generation == p.generation) || leb x.span.end p.low)) [
      | inl e ↦ rw e (retire_front-IsSorted p xs s.2)
      | inr e ↦ rw e s
    ]

pub length-retire_front :
    (p : Position) (xs : List Interval) → length (retire_front p xs) ≤ length xs
unfolding retire_front
length-retire_front p [] = omega arith
length-retire_front p (x ∷ xs) = ground (arith, length-retire_front p xs)

-- `retire` keeps a valid union sorted, its spans proper and apart, and within its capacity.
pub retire-IsValid : (h : History) (p : Option Position) → IsValid h → IsValid (retire h p)
unfolding retire
retire-IsValid h none v = v
retire-IsValid h (some p) v = record {
  sorted = retire_front-IsSorted p h.entries v.sorted;
  bounded = let b = v.bounded in omega (arith, length-retire_front p h.entries);
}

pub new-IsValid : (capacity : ℕ) → IsValid (new capacity)
unfolding new
new-IsValid capacity = record { sorted = tt; bounded = omega arith }

pub clear-IsValid : (h : History) → IsValid (clear h)
unfolding clear
clear-IsValid h = record { sorted = tt; bounded = omega arith }
