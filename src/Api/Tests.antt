-- ===== src/Api/Tests.antt =====
-- src/lib.rs on concrete values.
use rate_adjusting_pcm_ring.Common.{
  ℕ, ◌≡◌, refl, List, [], ◌∷◌, Option, none, some, true, false, arith,
}
use rate_adjusting_pcm_ring.Adapter.{create_converter, input_delay}
use rate_adjusting_pcm_ring.Ring.Settings.{validate, callback_budget}
use rate_adjusting_pcm_ring.Common.{div_ceil}
use rate_adjusting_pcm_ring.Ring.State.{Ring}
use rate_adjusting_pcm_ring.Ring.Create.{create}
use rate_adjusting_pcm_ring.Ring.Finish.{finish_pending}
use rate_adjusting_pcm_ring.Api.Codes.{Config, result_ok, result_invalid_argument}
use rate_adjusting_pcm_ring.Api.Create.{ring_create}
use rate_adjusting_pcm_ring.Api.Create.Opened.{IsOpened, ring_create_lem, opened_session-IsLive}
use rate_adjusting_pcm_ring.Api.Producer.{ring_producer_finish}
use rate_adjusting_pcm_ring.Api.Consumer.{ring_consumer_reset}
use rate_adjusting_pcm_ring.Api.Query.{ring_finish_status}
use rate_adjusting_pcm_ring.Api.Session.{Call, perform, call_code, session}
use rate_adjusting_pcm_ring.Api.Session.Live.{IsLive, session-IsLive}
use rate_adjusting_pcm_ring.Api.Session.Refused.{is_proper, refused_call}
use rate_adjusting_pcm_ring.Api.Tokens.{ring_finish_roundtrip}
use rate_adjusting_pcm_ring.Ring.Tests.{
  counted, wide_counted, widening, copying, fresh, fresh-IsFresh, three,
}

abbrev config : Config
config = record {
  struct_size = 64;
  abi_version = 3;
  capacity_samples = 512;
  input_rate_hz = 8000;
  output_rate_hz = 8000;
  reserve_samples = 160;
  target_samples = 320;
  max_producer_samples = 160;
  max_output_samples = 100;
  plc_mode = 1;
}

abbrev calls : List (Call ℕ)
calls =
    Call.push (some three) 3 (some 0)
    ∷ Call.mute 1 none 1 (some 0)
    ∷ Call.finish (some 0)
    ∷ Call.render (some three) 2 (some 0)
    ∷ Call.reset
    ∷ []

session-IsLive_example : IsLive (session widening calls (some fresh))
session-IsLive_example = session-IsLive widening calls fresh fresh-IsFresh.valid

ring_create_lem_example :
    let (code, output) =
      ring_create wide_counted (λ site. true) true (some config) (some none) (some copying) in
    (handle : Option (Ring ℕ ℕ ℕ)) × (output ≡ some handle)
    × IsOpened (some config) none (code, handle)
ring_create_lem_example =
    ring_create_lem wide_counted (λ site. true) true (some config) none (some copying)

opens :
    ring_create wide_counted (λ site. true) true (some config) (some none) (some copying)
    ≡ (result_ok, some (some fresh))
unfolding ring_create validate callback_budget div_ceil create create_converter input_delay
opens = refl

opened_session-IsLive_example : IsLive (session widening calls (some fresh))
opened_session-IsLive_example =
    opened_session-IsLive widening (λ site. true) true (some config) none (some fresh)
      (some copying) calls opens

idle : finish_pending fresh.shared ≡ false
unfolding finish_pending
idle = refl

ring_finish_roundtrip_example :
    let (code, written, handle) = ring_producer_finish (some fresh) (some 0) in
    (code ≡ result_ok)
    × (written ≡ some 1)
    × (ring_finish_status handle 1 (some 9) ≡ (result_ok, some 0))
    × (ring_finish_status handle 5 (some 9) ≡ (result_invalid_argument, some 9))
    × (ring_finish_status (ring_consumer_reset handle).2 1 (some 9) ≡ (result_ok, some 2))
ring_finish_roundtrip_example = ring_finish_roundtrip fresh 0 9 5 idle (omega arith) (omega arith)

-- A block of three samples behind a null pointer.
abbrev null_block : Call ℕ
null_block = Call.push none 3 (some 0)

improper : is_proper fresh.shared null_block ≡ false
unfolding is_proper
improper = refl

refused_call_example :
    (call_code widening null_block (some fresh) ≡ result_invalid_argument)
    × (perform widening null_block (some fresh) ≡ some fresh)
refused_call_example = refused_call widening null_block fresh improper
