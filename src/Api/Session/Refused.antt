-- ===== src/Api/Session/Refused.antt =====
-- What the calls of src/lib.rs refuse before they reach the ring.
use rate_adjusting_pcm_ring.Common.{
  ℕ, zero, suc, ◌≡◌, refl, List, [], ◌∷◌, take, Option, none, some, Bool, true, false, ◌&&◌, leb,
}
use rate_adjusting_pcm_ring.Common.Int.{ℤ}
use rate_adjusting_pcm_ring.Float.{Single, Double, Widen}
use rate_adjusting_pcm_ring.Mute.Types.{Span, max_spans}
use rate_adjusting_pcm_ring.Ring.State.{Ring, Shared}
use rate_adjusting_pcm_ring.Api.Codes.{result_invalid_argument}
use rate_adjusting_pcm_ring.Api.Checks.{
  Checked, fail, ◌>>=◌, ◌>>◌, require, non_null, checked_input, checked_spans, answer,
}
use rate_adjusting_pcm_ring.Api.Session.{Call, perform, call_code}
use rate_adjusting_pcm_ring.Api.Session.Call.{
  push_sample, push, gap, push_tagged, mute, finish, render_sample, render, reset,
}

-- Not a null pointer.
abbrev pub points : {A : Type 0} → Option A → Bool
points none = false
points (some a) = true

-- A block that may be null if it is empty.
abbrev pub block : {A : Type 0} → Option (List A) → ℕ → Bool
block xs zero = true
block xs (suc n) = points xs

abbrev pub all_of : List Bool → Bool
all_of [] = true
all_of (b ∷ bs) = b && all_of bs

-- The documented conditions on the arguments of a call.
unfoldable pub is_proper : {F : Type 0} → Shared F → Call F → Bool
is_proper s (push_sample sample accepted) = all_of (points accepted ∷ [])
is_proper s (push input samples accepted) =
    all_of (points accepted ∷ leb samples s.max_producer ∷ block input samples ∷ [])
is_proper s (gap samples accepted) = all_of (points accepted ∷ leb samples s.max_producer ∷ [])
is_proper s (push_tagged input samples generation start spans count accepted) = all_of (
    points accepted
    ∷ leb samples s.max_producer
    ∷ block input samples
    ∷ leb count max_spans
    ∷ block spans count
    ∷ [])
is_proper s (mute generation spans count accepted) =
    all_of (points accepted ∷ leb count max_spans ∷ block spans count ∷ [])
is_proper s (finish token) = all_of (points token ∷ [])
is_proper s (render_sample sample real) = all_of (points sample ∷ points real ∷ [])
is_proper s (render output samples real) =
    all_of (points real ∷ leb samples s.max_output ∷ block output samples ∷ [])
is_proper s reset = all_of []

-- Checks that are not all met end in the code of an invalid argument.
abbrev Rejects : {A : Type 0} → Bool → Checked A → Type 0
Rejects b m = b ≡ false → m ≡ fail result_invalid_argument

done-Rejects : {A : Type 0} (m : Checked A) → Rejects (all_of []) m
done-Rejects m e = cc

non_null-Rejects :
    {A B : Type 0} (p : Option A) (b : Bool) (f : A → Checked B)
    → ((a : A) → Rejects b (f a))
    → Rejects (points p && b) (non_null p >>= f)
non_null-Rejects none b f h e = refl
non_null-Rejects (some a) b f h e = h a e

require-Rejects :
    {A : Type 0} (c b : Bool) (m : Checked A) → Rejects b m → Rejects (c && b) (require c >> m)
require-Rejects true b m h e = h e
require-Rejects false b m h e = refl

checked_input-Rejects :
    {A B : Type 0} (xs : Option (List A)) (n : ℕ) (b : Bool) (f : List A → Checked B)
    → ((ys : List A) → Rejects b (f ys))
    → Rejects (block xs n && b) (checked_input xs n >>= f)
unfolding checked_input
checked_input-Rejects xs zero b f h e = h [] e
checked_input-Rejects none (suc n) b f h e = refl
checked_input-Rejects (some xs) (suc n) b f h e = h (take (suc n) xs) e

checked_spans-Rejects :
    {B : Type 0} (xs : Option (List Span)) (n : ℕ) (b : Bool) (f : List Span → Checked B)
    → ((ys : List Span) → Rejects b (f ys))
    → Rejects (leb n max_spans && (block xs n && b)) (checked_spans xs n >>= f)
unfolding checked_spans
checked_spans-Rejects xs n b f h = through (leb n max_spans)
  where
    through :
        (c : Bool) → Rejects (c && (block xs n && b)) ((require c >> checked_input xs n) >>= f)
    through true e = checked_input-Rejects xs n b f h e
    through false e = refl

module _ {F R C : Type 0} where
  refused_answer :
      {O : Type 0} (out : O) (r : Ring F R C) (m : Checked (ℤ × O × Option (Ring F R C)))
      → m ≡ fail result_invalid_argument
      → ((answer out (some r) m).0 ≡ result_invalid_argument) × ((answer out (some r) m).2 ≡ some r)
  refused_answer out r m e = rw e (refl, refl)

module _ {F R C : Type 0} ⦃single : Single F⦄ ⦃double : Double R⦄ (wide : Widen F R) where
  -- A call with arguments that break its conditions (a null pointer, a block beyond the configured size,
  -- more than 64 spans) answers that an argument is invalid and leaves the ring as it was.
  pub refused_call :
      (c : Call F) (r : Ring F R C)
      → is_proper r.shared c ≡ false
      → (call_code wide c (some r) ≡ result_invalid_argument) × (perform wide c (some r) ≡ some r)
  unfolding is_proper call_code perform
  refused_call (push_sample sample accepted) r e =
      refused_answer accepted r _ (non_null-Rejects accepted _ _ (λ old. done-Rejects _) e)
  refused_call (push input samples accepted) r e = refused_answer accepted r _ (
      non_null-Rejects accepted _ _
        (λ old.
          require-Rejects (leb samples r.shared.max_producer) _ _
            (checked_input-Rejects input samples _ _ (λ xs. done-Rejects _)))
        e)
  refused_call (gap samples accepted) r e = refused_answer accepted r _ (
      non_null-Rejects accepted _ _
        (λ old. require-Rejects (leb samples r.shared.max_producer) _ _ (done-Rejects _)) e)
  refused_call (push_tagged input samples generation start spans count accepted) r e =
      refused_answer accepted r _ (
        non_null-Rejects accepted _ _
          (λ old. require-Rejects (leb samples r.shared.max_producer) _ _ (
            checked_input-Rejects input samples _ _
              λ xs. checked_spans-Rejects spans count _ _ (λ ys. done-Rejects _)))
          e)
  refused_call (mute generation spans count accepted) r e = refused_answer accepted r _ (
      non_null-Rejects accepted _ _
        (λ old. checked_spans-Rejects spans count _ _ (λ xs. done-Rejects _)) e)
  refused_call (finish token) r e =
      refused_answer token r _ (non_null-Rejects token _ _ (λ old. done-Rejects _) e)
  refused_call (render_sample sample real) r e =
      refused_answer (sample, real) r _
        (non_null-Rejects sample _ _ (λ x. non_null-Rejects real _ _ (λ y. done-Rejects _)) e)
  refused_call (render output samples real) r e =
      refused_answer (output, real) r _
        (non_null-Rejects real _ _
          (λ old.
            require-Rejects (leb samples r.shared.max_output) _ _
              (checked_input-Rejects output samples _ _ (λ xs. done-Rejects _)))
          e)
  refused_call reset r e = cc
