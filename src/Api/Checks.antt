-- ===== src/Api/Checks.antt =====
-- The argument checks of src/lib.rs. A pointer that may be null is an `Option`; an array behind one is
-- the list of what the caller may let be read, of which a call borrows a prefix.
use rate_adjusting_pcm_ring.Common.{
  ℕ, zero, suc, List, [], Option, none, some, Bool, true, false, not, ◌||◌, ltb, leb, ◌==◌, take,
}
use rate_adjusting_pcm_ring.Common.Int.{ℤ}
use rate_adjusting_pcm_ring.Float.{Double}
use rate_adjusting_pcm_ring.Mute.Types.{Span, max_spans}
use rate_adjusting_pcm_ring.Ring.Settings.{Settings, PlcMode, from_ffi, validate}
use rate_adjusting_pcm_ring.Api.Codes.{abi_version, result_invalid_argument, Config, config_size}

-- `Result<A, c_int>`
pub data Checked (A : Type 0) : Type 0 where
  ok : A → Checked A
  fail : ℤ → Checked A

infixl 5 ◌>>=◌ ◌>>◌
abbrev pub ◌>>=◌ : {A B : Type 0} → Checked A → (A → Checked B) → Checked B
ok a >>= f = f a
fail e >>= f = fail e

abbrev pub ◌>>◌ : {B : Type 0} → Checked (Unit {0}) → Checked B → Checked B
m >> k = m >>= λ _. k

abbrev pub require : Bool → Checked (Unit {0})
require true = ok tt
require false = fail result_invalid_argument

-- `NonNull::new(p).ok_or(RESULT_INVALID_ARGUMENT)`, and `checked_ring`
abbrev pub non_null : {A : Type 0} → Option A → Checked A
non_null none = fail result_invalid_argument
non_null (some a) = ok a

-- `checked_input`, and `checked_output`
unfoldable pub checked_input : {A : Type 0} → Option (List A) → ℕ → Checked (List A)
checked_input input zero = ok []
checked_input none (suc n) = fail result_invalid_argument
checked_input (some xs) (suc n) = ok (take (suc n) xs)

unfoldable pub checked_spans : Option (List Span) → ℕ → Checked (List Span)
unfolding checked_input
checked_spans spans count = do require (leb count max_spans); checked_input spans count

unfoldable pub settings_of : Config → PlcMode → Settings
settings_of config plc = record {
  capacity = config.capacity_samples;
  input_rate_hz = config.input_rate_hz;
  output_rate_hz = config.output_rate_hz;
  reserve = config.reserve_samples;
  target = config.target_samples;
  max_producer = config.max_producer_samples;
  max_output = config.max_output_samples;
  plc = plc;
}

unfoldable pub checked_config : {R : Type 0} → Double R → Option Config → Checked Settings
unfolding settings_of from_ffi
checked_config double pointer = do
  config ← non_null pointer
  require (not (ltb config.struct_size config_size || not (config.abi_version == abi_version)))
  plc ← non_null (from_ffi config.plc_mode)
  require (validate double (settings_of config plc))
  ok (settings_of config plc)

-- What a call returns: its code, what it left at the caller's out pointers, and the ring. A check that
-- fails returns its code before anything is written.
abbrev pub answer : {O S : Type 0} → O → S → Checked (ℤ × O × S) → ℤ × O × S
answer out s (ok a) = a
answer out s (fail code) = (code, out, s)
