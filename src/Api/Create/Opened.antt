-- ===== src/Api/Create/Opened.antt =====
-- What `ring_create` of src/lib.rs leaves at the caller's handle.
use rate_adjusting_pcm_ring.Common.{
  ◌≡◌, ◌≢◌, ℕ, zero, suc, ◌≤◌, arith, ◌⊎◌, inl, inr, refl, ap, subst, not, ◌||◌, ltb, ◌==◌, List,
  Option, none, some, Bool, true, false,
}
use rate_adjusting_pcm_ring.Common.Int.{ℤ}
use rate_adjusting_pcm_ring.Float.{Single, Double, Widen}
use rate_adjusting_pcm_ring.Adapter.{AdapterFunctions}
use rate_adjusting_pcm_ring.Ring.Settings.{
  PlcMode, disabled, g711_appendix_i, Settings, from_ffi, validate,
}
use rate_adjusting_pcm_ring.Ring.State.{Ring}
use rate_adjusting_pcm_ring.Ring.Create.{Site, Created, create}
use rate_adjusting_pcm_ring.Ring.Create as RingCreate
use rate_adjusting_pcm_ring.Ring.Create.Fresh.{IsFresh, create_lem}
use rate_adjusting_pcm_ring.Api.Codes.{abi_version, config_size, result_ok, Config}
use rate_adjusting_pcm_ring.Api.Checks.{
  Checked, ok, fail, ◌>>=◌, ◌>>◌, non_null, require, settings_of, checked_config,
}
use rate_adjusting_pcm_ring.Api.Create.{finish_ring_create, create_checked, ring_create}
use rate_adjusting_pcm_ring.Api.Session.{Call, session}
use rate_adjusting_pcm_ring.Api.Session.Live.{IsLive, session-IsLive}

module _ {F R C : Type 0} ⦃single : Single F⦄ where
  -- The handle has a new ring under these settings.
  abbrev pub IsNew : Settings → Option (Ring F R C) → Type 0
  IsNew settings none = ⊥
  IsNew settings (some r) = IsFresh settings r

  -- Success comes with a new ring under the checked configuration, and failure with the old handle or
  -- with null.
  abbrev pub IsAnswer : Checked Settings → Option (Ring F R C) → ℤ × Option (Ring F R C) → Type 0
  IsAnswer config old (code, handle) =
      ((code ≡ result_ok)
        × ((settings : Settings) × (config ≡ ok settings) × IsNew settings handle))
      ⊎ ((code ≢ result_ok) × ((handle ≡ old) ⊎ (handle ≡ none)))

-- The caller's record is of this version and asks for these settings, field by field; mode 0 asks for no
-- concealment and mode 1 for one.
pub record IsRequest (c : Config) (s : Settings) : Type 0 where
  pub known_size : 64 ≤ c.struct_size
  pub known_version : c.abi_version ≡ 3
  pub capacity : s.capacity ≡ c.capacity_samples
  pub input_rate : s.input_rate_hz ≡ c.input_rate_hz
  pub output_rate : s.output_rate_hz ≡ c.output_rate_hz
  pub reserve : s.reserve ≡ c.reserve_samples
  pub target : s.target ≡ c.target_samples
  pub max_producer : s.max_producer ≡ c.max_producer_samples
  pub max_output : s.max_output ≡ c.max_output_samples
  pub mode :
      ((c.plc_mode ≡ 0) × (s.plc ≡ disabled)) ⊎ ((c.plc_mode ≡ 1) × (s.plc ≡ g711_appendix_i))

-- What a creation leaves: success and a new ring that works as the caller's record asks, or a failure and
-- the old handle or null.
abbrev pub IsOpened :
    {F R C : Type 0} ⦃single : Single F⦄
    → Option Config
    → Option (Ring F R C)
    → ℤ × Option (Ring F R C)
    → Type 0
IsOpened config old (code, handle) =
    ((code ≡ result_ok)
      × ((c : Config) × (settings : Settings) × (config ≡ some c)
          × IsRequest c settings
          × IsNew settings handle))
    ⊎ ((code ≢ result_ok) × ((handle ≡ old) ⊎ (handle ≡ none)))

from_ffi-IsMode :
    (mode : ℕ) (plc : PlcMode)
    → from_ffi mode ≡ some plc
    → ((mode ≡ 0) × (plc ≡ disabled)) ⊎ ((mode ≡ 1) × (plc ≡ g711_appendix_i))
unfolding from_ffi
from_ffi-IsMode zero plc e = inl (refl, cc)
from_ffi-IsMode (suc zero) plc e = inr (refl, cc)
from_ffi-IsMode (suc (suc n)) plc e = cc

-- A property of what a check lets through.
abbrev OnOk : {A : Type 0} → (A → Type 0) → Checked A → Type 0
OnOk P (ok a) = P a
OnOk P (fail code) = Unit {0}

mode-OnOk :
    (mode : Option PlcMode) (P : Settings → Type 0) (f : PlcMode → Checked Settings)
    → ((plc : PlcMode) → mode ≡ some plc → OnOk P (f plc))
    → OnOk P (non_null mode >>= f)
mode-OnOk none P f h = tt
mode-OnOk (some plc) P f h = h plc refl

require-OnOk :
    (b : Bool) (P : Settings → Type 0) (m : Checked Settings)
    → (b ≡ true → OnOk P m)
    → OnOk P (require b >> m)
require-OnOk true P m h = h refl
require-OnOk false P m h = tt

checked_config-OnOk :
    {R : Type 0} (double : Double R) (c : Config)
    → OnOk (IsRequest c) (checked_config double (some c))
unfolding checked_config settings_of
checked_config-OnOk double c =
    require-OnOk (not (ltb c.struct_size config_size || not (c.abi_version == abi_version)))
      (IsRequest c) _
      λ version. mode-OnOk (from_ffi c.plc_mode) (IsRequest c) _ λ plc known.
        require-OnOk (validate double (settings_of c plc)) (IsRequest c) _ λ accepted. record {
          known_size = ground arith;
          known_version = ground arith;
          capacity = refl;
          input_rate = refl;
          output_rate = refl;
          reserve = refl;
          target = refl;
          max_producer = refl;
          max_output = refl;
          mode = from_ffi-IsMode c.plc_mode plc known;
        }

-- A check that fails does so with a code of failure.
abbrev Refuses : {A : Type 0} → Checked A → Type 0
Refuses (ok a) = Unit {0}
Refuses (fail code) = code ≢ result_ok

>>=-Refuses :
    {A B : Type 0} (m : Checked A) (f : A → Checked B)
    → Refuses m
    → ((a : A) → Refuses (f a))
    → Refuses (m >>= f)
>>=-Refuses (ok a) f h rest = rest a
>>=-Refuses (fail code) f h rest = h

non_null-Refuses : {A : Type 0} (pointer : Option A) → Refuses (non_null pointer)
non_null-Refuses none = λ e. cc
non_null-Refuses (some a) = tt

require-Refuses : {B : Type 0} (b : Bool) (m : Checked B) → Refuses m → Refuses (require b >> m)
require-Refuses true m h = h
require-Refuses false m h = λ e. cc

checked_config-Refuses :
    {R : Type 0} (double : Double R) (config : Option Config)
    → Refuses (checked_config double config)
unfolding checked_config
checked_config-Refuses double config =
    >>=-Refuses (non_null config) _ (non_null-Refuses config) λ c.
      require-Refuses (not (ltb c.struct_size config_size || not (c.abi_version == abi_version))) _
        (>>=-Refuses (non_null (from_ffi c.plc_mode)) _ (non_null-Refuses (from_ffi c.plc_mode))
          λ plc. require-Refuses (validate double (settings_of c plc)) (ok (settings_of c plc)) tt)

module _ {F R C : Type 0} ⦃single : Single F⦄ (double : Double R) where
  finish_ring_create-IsAnswer :
      (allocates_handle : Bool) (settings : Settings) (old : Option (Ring F R C))
      (created : Created (Ring F R C))
      → ((r : Ring F R C) → created ≡ Created.ok r → IsFresh settings r)
      → IsAnswer (ok settings) old (finish_ring_create allocates_handle created)
  unfolding finish_ring_create
  finish_ring_create-IsAnswer b settings old (Created.err RingCreate.CreateError.no_memory) h =
      inr (λ e. cc, inr refl)
  finish_ring_create-IsAnswer b settings old (Created.err RingCreate.CreateError.invalid) h =
      inr (λ e. cc, inr refl)
  finish_ring_create-IsAnswer b settings old (Created.err RingCreate.CreateError.adapter) h =
      inr (λ e. cc, inr refl)
  finish_ring_create-IsAnswer true settings old (Created.ok r) h =
      inl (refl, (settings, refl, h r refl))
  finish_ring_create-IsAnswer false settings old (Created.ok r) h = inr (λ e. cc, inr refl)

  create_checked-IsAnswer :
      (allocates : Site → Bool) (allocates_handle : Bool) (config : Checked Settings)
      (old : Option (Ring F R C)) (adapter : Option (AdapterFunctions F R C))
      → Refuses config
      → IsAnswer config old (create_checked double allocates allocates_handle config old adapter)
  create_checked-IsAnswer allocates b (fail code) old adapter h = inr (h, inl refl)
  create_checked-IsAnswer allocates b (ok settings) old none h = inr (λ e. cc, inr refl)
  create_checked-IsAnswer allocates b (ok settings) old (some functions) h =
      finish_ring_create-IsAnswer b settings old (create double allocates settings functions)
        (λ r e. create_lem double allocates settings functions r e)

  -- What follows from the checked configuration, by the caller's record.
  IsOpened-of_IsAnswer :
      (config : Option Config) (old : Option (Ring F R C)) (code : ℤ) (handle : Option (Ring F R C))
      → IsAnswer (checked_config double config) old (code, handle)
      → IsOpened config old (code, handle)
  IsOpened-of_IsAnswer config old code handle (inr failed) = inr failed
  IsOpened-of_IsAnswer none old code handle (inl (answered, (settings, e, new))) =
      absurd (unfold checked_config in cc)
  IsOpened-of_IsAnswer (some c) old code handle (inl (answered, (settings, e, new))) = inl (
    answered,
    (c, settings, refl, subst (OnOk (IsRequest c)) e (checked_config-OnOk double c), new),
  )

  -- With an output pointer that is not null, `ring_create` either answers success, the caller's record is
  -- of the known version, and the handle has a new ring, valid, empty and open to its producer, with every
  -- one of the record's sizes and rates, and with a concealment exactly if the record asks for it; or it
  -- answers a failure and what is there is what was, or null.
  pub ring_create_lem :
      (allocates : Site → Bool) (allocates_handle : Bool) (config : Option Config)
      (old : Option (Ring F R C)) (adapter : Option (AdapterFunctions F R C))
      → let (code, output) =
          ring_create double allocates allocates_handle config (some old) adapter in
        (handle : Option (Ring F R C)) × (output ≡ some handle) × IsOpened config old (code, handle)
  unfolding ring_create
  ring_create_lem allocates b config old adapter = (
    (create_checked double allocates b (checked_config double config) old adapter).1,
    refl,
    IsOpened-of_IsAnswer config old _ _ (
        create_checked-IsAnswer allocates b (checked_config double config) old adapter
          (checked_config-Refuses double config)),
  )

module _ {F R C : Type 0} ⦃single : Single F⦄ ⦃double : Double R⦄ (wide : Widen F R) where
  -- From a successful `ring_create` on, any sequence of calls of the two endpoints leaves a valid ring
  -- behind the handle.
  pub opened_session-IsLive :
      (allocates : Site → Bool) (allocates_handle : Bool) (config : Option Config)
      (old handle : Option (Ring F R C)) (adapter : Option (AdapterFunctions F R C))
      (calls : List (Call F))
      → ring_create double allocates allocates_handle config (some old) adapter
        ≡ (result_ok, some handle)
      → IsLive (session wide calls handle)
  opened_session-IsLive allocates b config old handle adapter calls e =
      let (new, at, answered) = ring_create_lem double allocates b config old adapter in
      let code = ap (λ p. p.0) e in
      let output = ap (λ p. p.1) e in
      let same : new ≡ handle = cc in
      subst (λ h. IsLive (session wide calls h)) same
        (through new (ring_create double allocates b config (some old) adapter).0 code answered)
    where
      through :
          (h : Option (Ring F R C)) (code : ℤ)
          → code ≡ result_ok
          → IsOpened config old (code, h)
          → IsLive (session wide calls h)
      through (some r) code done (inl (_, (c, settings, _, _, fresh))) =
          session-IsLive wide calls r fresh.valid
      through none code done (inl (_, (c, settings, _, _, new))) = absurd new
      through h code c (inr (failed, _)) = absurd (failed c)
