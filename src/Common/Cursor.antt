-- ===== src/Common/Cursor.antt =====
-- The two-lap cursor protocol that `Ring` (src/ring.rs) and `Mailbox` (src/mute.rs) share: both
-- cursors run modulo twice the capacity, and a slot's index is its cursor modulo the capacity.
use native.Mathlib.Nat.{mod-add-mod, mod-eq_of_lt, mod-eq-sub-mod, mod-mod_of_dvd, mod-lt, mod_self}
use native.Mathlib.Nat.{dvd-mul_right, add-mod_right}
use rate_adjusting_pcm_ring.Common.{
  ℕ, zero, suc, ◌+◌, ◌-◌, ◌*◌, ◌%◌, ◌≤◌, ◌<◌, ◌≡◌, refl, sym, ◌≢◌, ap, ap₂, ◌∙◌, List, [], ◌∷◌,
  ◌++◌, arith, length, get_or, set, dec_lt, ◌⊎◌, ◌↔◌, inl, inr, get_or-set_self, get_or-set_ne,
}

-- The forward distance from `read` to `written`.
unfoldable pub distance : ℕ → ℕ → ℕ → ℕ
distance cap written read = (written + cap * 2 - read) % (cap * 2)

-- The next cursor.
unfoldable pub advance : ℕ → ℕ → ℕ
advance cap cursor = (cursor + 1) % (cap * 2)

module _ {ℓ} {A : Type ℓ} (d : A) where
  -- The `n` slots from cursor `h` on.
  abbrev pub window : List A → ℕ → ℕ → ℕ → List A
  window buf cap h zero = []
  window buf cap h (suc n) = get_or buf (h % cap) d ∷ window buf cap (h + 1) n

  pub length-window : (buf : List A) (cap h n : ℕ) → length (window buf cap h n) ≡ n
  length-window buf cap h zero = refl
  length-window buf cap h (suc n) = ap suc (length-window buf cap (h + 1) n)

next_slot : (cap h k : ℕ) → h % cap ≡ k % cap → (h + 1) % cap ≡ (k + 1) % cap
next_slot cap h k e = sym (mod-add-mod h cap 1) ∙ ap (λ t. (t + 1) % cap) e ∙ mod-add-mod k cap 1

shift_slot : (cap h k : ℕ) → h % cap ≡ k % cap → (n : ℕ) → (h + n) % cap ≡ (k + n) % cap
shift_slot cap h k e n = sym (mod-add-mod h cap n) ∙ ap (λ t. (t + n) % cap) e ∙ mod-add-mod k cap n

-- Reducing a cursor modulo two laps keeps its slot.
pub slot-mod : (cap h : ℕ) → h % (cap * 2) % cap ≡ h % cap
slot-mod cap h = mod-mod_of_dvd cap h (dvd-mul_right cap 2)

-- Fewer than `cap` steps do not come back to the same slot.
slot_ne : (cap h k : ℕ) → suc k < cap → (h + suc k) % cap ≢ h % cap
slot_ne cap h k lt e = elim (dec_lt (h % cap + suc k) cap) [
  | yes p ↦ omega (arith, mod-add-mod h cap (suc k), mod-eq_of_lt p)
  | no p ↦ omega (
    arith,
    mod-add-mod h cap (suc k),
    mod-lt h {m = cap} (omega arith),
    mod-eq-sub-mod {n = h % cap + suc k} {m = cap} (omega arith),
    mod-eq_of_lt {n = h % cap + suc k - cap} {m = cap}
        (omega (arith, mod-lt h {m = cap} (omega arith))),
  )
]

module _ {ℓ} {A : Type ℓ} (d : A) where
  -- A window depends only on the slot at which it starts.
  pub window-slot :
      (buf : List A) (cap h k n : ℕ)
      → h % cap ≡ k % cap
      → window d buf cap h n ≡ window d buf cap k n
  window-slot buf cap h k zero e = refl
  window-slot buf cap h k (suc n) e =
      ap₂ ◌∷◌ (ap (λ i. get_or buf i d) e)
        (window-slot buf cap (h + 1) (k + 1) n (next_slot cap h k e))

  -- A write just past a window does not touch it.
  pub window-set :
      (buf : List A) (cap h n i : ℕ) (x : A)
      → cap ≤ length buf
      → n < cap
      → i ≡ (h + n) % cap
      → window d (set buf i x) cap h (suc n) ≡ window d buf cap h n ++ (x ∷ [])
  window-set buf cap h zero i x room lt e =
      let at : i ≡ h % cap = rw e (ap (λ t. t % cap) (omega arith)) in
      ap (λ y. y ∷ [])
        (rw (← at) (
          get_or-set_self buf i x d
            (let b : i < cap = rw e (mod-lt _ (omega arith)) in omega arith)))
  window-set buf cap h (suc n) i x room lt e =
      ap₂ ◌∷◌ (get_or-set_ne buf x d (λ same. slot_ne cap h n lt (sym e ∙ same)))
        (window-set buf cap (h + 1) n i x room (omega arith) (e ∙ ap (λ t. t % cap) (omega arith)))

-- Nor does it change it: the writer of a ring with room is past every slot of the reader.
module _ {ℓ} {A : Type ℓ} (d : A) where
  pub window-set_past :
      (buf : List A) (cap h n i : ℕ) (x : A)
      → n < cap
      → i ≡ (h + n) % cap
      → window d (set buf i x) cap h n ≡ window d buf cap h n
  window-set_past buf cap h zero i x lt e = refl
  window-set_past buf cap h (suc n) i x lt e =
      ap₂ ◌∷◌ (get_or-set_ne buf x d (λ same. slot_ne cap h n lt (sym e ∙ same)))
        (window-set_past buf cap (h + 1) n i x (omega arith) (e ∙ ap (λ t. t % cap) (omega arith)))

  -- The last slot of a window.
  pub window_last :
      (buf : List A) (cap h n : ℕ)
      → window d buf cap h (suc n) ≡ window d buf cap h n ++ (get_or buf ((h + n) % cap) d ∷ [])
  window_last buf cap h zero = ap (λ i. get_or buf (i % cap) d ∷ []) (omega arith)
  window_last buf cap h (suc n) =
      ap (λ xs. get_or buf (h % cap) d ∷ xs)
        (window_last buf cap (h + 1) n
          ∙ ap (λ i. window d buf cap (h + 1) n ++ (get_or buf (i % cap) d ∷ [])) (omega arith))

-- Two slots less than a lap apart are different.
pub slot-ne : (cap h k n : ℕ) → h % cap ≡ (k + n) % cap → n ≢ 0 → n < cap → h % cap ≢ k % cap
slot-ne cap h k zero e ne lt same = ne refl
slot-ne cap h k (suc n) e ne lt same = slot_ne cap k n lt (sym e ∙ same)

-- Cursors stay below two laps.
pub advance-lt : (cap c : ℕ) → 0 < cap → advance cap c < cap * 2
unfolding advance
advance-lt cap c h = mod-lt (c + 1) (omega arith)

pub distance-lt : (cap w r : ℕ) → 0 < cap → distance cap w r < cap * 2
unfolding distance
distance-lt cap w r h = mod-lt _ (omega arith)

distance-le : (cap w r : ℕ) → w < cap * 2 → r < cap * 2 → r ≤ w → distance cap w r ≡ w - r
unfolding distance
distance-le cap w r hw hr h =
    mod-eq-sub-mod {n = w + cap * 2 - r} {m = cap * 2} (omega arith)
    ∙ (mod-eq_of_lt (omega arith) ∙ omega arith)

distance-gt : (cap w r : ℕ) → r < cap * 2 → w < r → distance cap w r ≡ w + cap * 2 - r
unfolding distance
distance-gt cap w r hr h = mod-eq_of_lt (omega arith)

advance_cases :
    (cap c : ℕ)
    → c < cap * 2
    → ((c + 1 < cap * 2) × (advance cap c ≡ c + 1)) ⊎ ((c + 1 ≡ cap * 2) × (advance cap c ≡ 0))
unfolding advance
advance_cases cap c h = elim (dec_lt (c + 1) (cap * 2)) [
  | yes p ↦ inl (p, mod-eq_of_lt p)
  | no p ↦ let e : c + 1 ≡ cap * 2 = omega arith in inr (e, rw e (mod_self (cap * 2)))
]

distance_cases :
    (cap w r : ℕ)
    → w < cap * 2
    → r < cap * 2
    → ((r ≤ w) × (distance cap w r ≡ w - r)) ⊎ ((w < r) × (distance cap w r ≡ w + cap * 2 - r))
distance_cases cap w r hw hr = elim (dec_lt w r) [
  | yes p ↦ inr (p, distance-gt cap w r hr p)
  | no p ↦ inl (omega arith, distance-le cap w r hw hr (omega arith))
]

module _ (cap w r : ℕ) (hw : w < cap * 2) (hr : r < cap * 2) where
  -- Equal cursors, and only those, are at distance 0.
  pub distance-eq_zero : (distance cap w r ≡ 0) ↔ (r ≡ w)
  distance-eq_zero = (
    λ e. omega (arith, distance_cases cap w r hw hr),
    λ e. omega (arith, distance_cases cap w r hw hr),
  )

  -- Publishing a slot makes the distance one longer, while the ring is not full.
  pub distance-advance_written :
      distance cap w r < cap → distance cap (advance cap w) r ≡ distance cap w r + 1
  distance-advance_written h =
      let hw' : advance cap w < cap * 2 = advance-lt cap w (omega arith) in
      omega (
        arith,
        distance_cases cap w r hw hr,
        distance_cases cap (advance cap w) r hw' hr,
        advance_cases cap w hw,
      )

  -- Consuming a slot makes it one shorter, while the ring is not empty.
  pub distance-advance_read : r ≢ w → distance cap w (advance cap r) ≡ distance cap w r - 1
  distance-advance_read h =
      let hr' : advance cap r < cap * 2 = advance-lt cap r (omega arith) in
      omega (
        arith,
        distance_cases cap w r hw hr,
        distance_cases cap w (advance cap r) hw hr',
        advance_cases cap r hr,
      )

  -- The slot that the producer writes stands just past the unread window.
  pub slot-written : w % cap ≡ (r + distance cap w r) % cap
  slot-written = elim (distance_cases cap w r hw hr) [
    | inl (le, e) ↦ ap (λ t. t % cap) (omega arith)
    | inr (gt, e) ↦
        sym (slot-mod cap w)
        ∙ (sym (ap (λ t. t % cap) (add-mod_right w (cap * 2)))
            ∙ (slot-mod cap (w + cap * 2) ∙ ap (λ t. t % cap) (omega arith)))
  ]

-- Reading the first slot of a non-empty window leaves the rest.
pub window_read {ℓ} :
    {A : Type ℓ} (d : A) (buf : List A) (cap w r : ℕ)
    → w < cap * 2
    → r < cap * 2
    → r ≢ w
    → window d buf cap r (distance cap w r)
      ≡ get_or buf (r % cap) d ∷ window d buf cap (advance cap r) (distance cap w (advance cap r))
unfolding advance
window_read d buf cap w r hw hr ne =
    let e : distance cap w r ≡ suc (distance cap w ((r + 1) % (cap * 2))) = longer in
    rw e (
      ap (λ t. get_or buf (r % cap) d ∷ t)
        (window-slot d buf cap (r + 1) ((r + 1) % (cap * 2)) _ (sym (slot-mod cap (r + 1)))))
  where
    longer : distance cap w r ≡ suc (distance cap w ((r + 1) % (cap * 2)))
    longer =
        let zero_iff = distance-eq_zero cap w r hw hr in
        let pos : distance cap w r ≢ 0 = λ z. ne (zero_iff.0 z) in
        omega (arith, distance-advance_read cap w r hw hr ne)
