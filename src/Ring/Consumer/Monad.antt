-- ===== src/Ring/Consumer/Monad.antt =====
-- `refill_output` of src/ring.rs returns early from many places: its steps are a state monad over the
-- ring in which `stop` is a `return`.
use rate_adjusting_pcm_ring.Common.{Option, none, some, ◌≡◌, refl}
use rate_adjusting_pcm_ring.Ring.State.{RefillResult}

pub data Outcome {ℓ} (A : Type ℓ) : Type ℓ where
  continue : A → Outcome A
  stop : RefillResult → Outcome A

abbrev pub Step : Type 0 → Type 0 → Type 0
Step S A = S → Outcome A × S

infixl 5 ◌>>=◌ ◌>>◌
abbrev pub ◌>>=◌ : {S A B : Type 0} → Step S A → (A → Step S B) → Step S B
◌>>=◌ {S} {A} {B} m f s =
    let (out, s') = m s in
    elim out as (λ o. Outcome B × S) [ continue a ↦ f a s' | stop r ↦ (stop r, s') ]

abbrev pub ◌>>◌ : {S B : Type 0} → Step S (Unit {0}) → Step S B → Step S B
m >> k = m >>= λ _. k

abbrev pub modify : {S : Type 0} → (S → S) → Step S (Unit {0})
modify f s = (continue tt, f s)

abbrev pub return : {S : Type 0} → RefillResult → Step S (Unit {0})
return r s = (stop r, s)

-- `let Some(x) = e else { return r }`
abbrev pub or_return : {S A : Type 0} → RefillResult → Option A → Step S A
or_return r none s = (stop r, s)
or_return r (some a) s = (continue a, s)

-- The result of a method all of whose paths return.
abbrev pub result_of : {S : Type 0} → Outcome (Unit {0}) × S → RefillResult × S
result_of (continue _, s) = (RefillResult.starved, s)
result_of (stop r, s) = (r, s)

-- A property of the state holds after a sequence if it holds after its first part, and after the rest
-- wherever the first part goes on.
pub >>=_inv {κ} :
    {S A B : Type 0} (P : S → Type κ) (m : Step S A) (f : A → Step S B) (s : S)
    → P (m s).1
    → ((a : A) → (m s).0 ≡ continue a → P (f a (m s).1).1)
    → P ((m >>= f) s).1
>>=_inv {S} {A} {B} P m f s h rest = at (m s).0 h rest
  where
    at :
        (o : Outcome A)
        → P (m s).1
        → ((a : A) → o ≡ continue a → P (f a (m s).1).1)
        → P
            (elim o as (λ x. Outcome B × S) [
              | continue a ↦ f a (m s).1
              | stop r ↦ (stop r, (m s).1)
            ]).1
    at (continue a) h rest = rest a refl
    at (stop r) h rest = h
