-- ===== src/Api/Create.antt =====
-- `ring_create` of src/lib.rs and what it calls. A handle is `none` when it is null. The adapter that
-- `load_functions` resolves, and whether the allocations succeed, are parameters.
pub mod Opened
use rate_adjusting_pcm_ring.Common.{ℕ, Option, none, some, Bool, true, false}
use rate_adjusting_pcm_ring.Common.Int.{ℤ}
use rate_adjusting_pcm_ring.Float.{Single, Double}
use rate_adjusting_pcm_ring.Adapter.{AdapterFunctions}
use rate_adjusting_pcm_ring.Ring.Settings.{Settings}
use rate_adjusting_pcm_ring.Ring.State.{Ring}
use rate_adjusting_pcm_ring.Ring.Create.{Site, Created, create}
use rate_adjusting_pcm_ring.Ring.Create as RingCreate
use rate_adjusting_pcm_ring.Api.Codes.{
  result_ok, result_invalid_argument, result_no_memory, result_adapter_error, Config,
}
use rate_adjusting_pcm_ring.Api.Checks.{Checked, ok, fail, checked_config}

module _ {F R C : Type 0} where
  -- `allocate_ring_handle_with`; the argument is whether the allocator returns memory.
  abbrev pub allocate_ring_handle : Bool → Ring F R C → Option (Ring F R C)
  allocate_ring_handle true r = some r
  allocate_ring_handle false r = none

  abbrev publish_handle : Option (Ring F R C) → ℤ × Option (Ring F R C)
  publish_handle none = (result_no_memory, none)
  publish_handle (some r) = (result_ok, some r)

  -- The code, and the handle at the output, which was set to null before.
  unfoldable pub finish_ring_create : Bool → Created (Ring F R C) → ℤ × Option (Ring F R C)
  finish_ring_create allocates (Created.err RingCreate.CreateError.no_memory) =
      (result_no_memory, none)
  finish_ring_create allocates (Created.err RingCreate.CreateError.invalid) =
      (result_invalid_argument, none)
  finish_ring_create allocates (Created.err RingCreate.CreateError.adapter) =
      (result_adapter_error, none)
  finish_ring_create allocates (Created.ok r) = publish_handle (allocate_ring_handle allocates r)

module _ {F R C : Type 0} ⦃single : Single F⦄ (double : Double R) (allocates : Site → Bool)
    (allocates_handle : Bool) where
  -- Behind the check of the configuration, which was accepted.
  abbrev pub create_resolved : Settings → Option (AdapterFunctions F R C) → ℤ × Option (Ring F R C)
  create_resolved settings none = (result_adapter_error, none)
  create_resolved settings (some adapter) =
      finish_ring_create allocates_handle (create double allocates settings adapter)

  abbrev pub create_checked :
      Checked Settings
      → Option (Ring F R C)
      → Option (AdapterFunctions F R C)
      → ℤ × Option (Ring F R C)
  create_checked (fail code) old adapter = (code, old)
  create_checked (ok settings) old adapter = create_resolved settings adapter

  -- `ring_create_with_adapter_and_allocator`. The output pointer is the handle that it points to.
  unfoldable pub ring_create :
      Option Config
      → Option (Option (Ring F R C))
      → Option (AdapterFunctions F R C)
      → ℤ × Option (Option (Ring F R C))
  unfolding checked_config finish_ring_create
  ring_create config none adapter = (result_invalid_argument, none)
  ring_create config (some old) adapter =
      let (code, handle) = create_checked (checked_config double config) old adapter in
      (code, some handle)
