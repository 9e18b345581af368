-- ===== src/Ring/Create/Fresh.antt =====
-- What `Ring::create` of src/ring.rs hands out.
use rate_adjusting_pcm_ring.Common.{
  ℕ, ◌+◌, ◌-◌, ◌/◌, length, replicate, ◌<◌, Option, none, some, ◌*◌, ◌≡◌, refl, subst, [], Bool,
  true, false, if◌then◌else◌, length-replicate, arith, div_ceil,
}
use rate_adjusting_pcm_ring.Common.Cursor.{distance-eq_zero}
use rate_adjusting_pcm_ring.Float.{Single, Double}
use rate_adjusting_pcm_ring.Adapter.{AdapterFunctions, Converter, create_converter, input_delay}
use rate_adjusting_pcm_ring.Mute.Mailbox.Proper.{new-IsSound}
use rate_adjusting_pcm_ring.Mute.History.Sorted.{new-IsValid}
use rate_adjusting_pcm_ring.Plc.State.{Plc, new, lookahead}
use rate_adjusting_pcm_ring.Ring.Settings.{
  Settings, PlcMode, disabled, g711_appendix_i, validate, converter_quantum,
}
use rate_adjusting_pcm_ring.Ring.Settings.Valid.{IsAccepted, validate_lem}
use rate_adjusting_pcm_ring.Ring.State.{Ring, empty_slot}
use rate_adjusting_pcm_ring.Ring.State.Queue.{contents, contents_nil}
use rate_adjusting_pcm_ring.Ring.Finish.{finish_pending, is_pending}
use rate_adjusting_pcm_ring.Ring.Producer.Publish.{IsOpen}
use rate_adjusting_pcm_ring.Ring.Consumer.Invariant.{RingIsValid, IsConcealed}
use rate_adjusting_pcm_ring.Plc.Sound.Step.{new-IsSound as new_plc-IsSound}
use rate_adjusting_pcm_ring.Mute.Types.{Position}
use rate_adjusting_pcm_ring.Ring.Consumer.Refill.{billion}
use rate_adjusting_pcm_ring.Ring.Create.{
  CreateError, invalid, no_memory, adapter, Created, ok, err, ◌>>=◌, ◌>>◌, require, or_error, Site,
  plc_buffers, storage, input, output, gaps, history, mailbox, positions, uses_plc, fresh_consumer,
  fresh_shared, assemble, assemble_with, create,
}

abbrev OnOk : {A : Type 0} → (A → Type 0) → Created A → Type 0
OnOk P (ok a) = P a
OnOk P (err e) = Unit {0}

>>=-OnOk :
    {A B : Type 0} (P : B → Type 0) (m : Created A) (f : A → Created B)
    → ((a : A) → m ≡ ok a → OnOk P (f a))
    → OnOk P (m >>= f)
>>=-OnOk P (ok a) f h = h a refl
>>=-OnOk P (err e) f h = tt

require-OnOk :
    {B : Type 0} (P : B → Type 0) (b : Bool) (e : CreateError) (f : Created B)
    → (b ≡ true → OnOk P f)
    → OnOk P (require b e >> f)
require-OnOk P true e f h = h refl
require-OnOk P false e f h = tt

OnOk-ok : {A : Type 0} (P : A → Type 0) (m : Created A) {a : A} → OnOk P m → m ≡ ok a → P a
OnOk-ok P m h e = subst (OnOk P) e h

-- The lookahead of a new concealment, of a positive rate.
fresh-IsConcealed :
    (F : Type 0) ⦃single : Single F⦄ (mode : PlcMode) (rate : ℕ)
    → 0 < rate
    → IsConcealed {F = F}
        (if uses_plc mode then some (new rate) else none)
        (replicate (if uses_plc mode then lookahead rate else 0) none)
        0
unfolding lookahead div_ceil
fresh-IsConcealed F disabled rate some_rate = refl
fresh-IsConcealed F g711_appendix_i rate some_rate =
    let size = length-replicate {A = Option Position} (lookahead rate) none in
    (omega arith, λ short. new_plc-IsSound rate some_rate (omega arith))

module _ {F R C : Type 0} ⦃single : Single F⦄ (double : Double R) where
  fresh-RingIsValid :
      (settings : Settings) (converter : Converter F R C) (past : ℕ)
      → IsAccepted settings
      → RingIsValid (record {
        shared = fresh_shared double settings converter past;
        consumer = fresh_consumer double settings converter past;
      })
  fresh-RingIsValid settings converter past v =
      let plenty = v.at_least in
      let empty = (distance-eq_zero settings.capacity 0 0 (omega arith) (omega arith)).1 refl in
      record {
        shared = record {
          at_least = v.at_least;
          at_most = v.at_most;
          size = length-replicate settings.capacity empty_slot;
          written_lt = omega arith;
          read_lt = omega arith;
          fits = omega arith;
          mailbox = new-IsSound;
          discarded_fits = omega arith;
        };
        consumer = record {
          input_size = length-replicate settings.capacity single.zero;
          output_size = length-replicate settings.capacity single.zero;
          input_fits = omega arith;
          output_fits = omega arith;
          cached = λ busy. absurd (busy refl);
          accounted = refl;
          gaps_fit = omega arith;
          history = new-IsValid (settings.capacity * 2 + past + 2);
          drainable = tt;
          concealed = fresh-IsConcealed F settings.plc settings.output_rate_hz v.output_rate;
        };
      }

-- The ring works under these settings: every one of them is in the ring, and there is a concealment, with
-- its positions, exactly if they ask for one.
pub record IsConfigured {F R C : Type 0} (settings : Settings) (r : Ring F R C) : Type 0 where
  pub capacity : r.shared.capacity ≡ settings.capacity
  pub input_rate : r.shared.input_rate_hz ≡ settings.input_rate_hz
  pub output_rate : r.shared.output_rate_hz ≡ settings.output_rate_hz
  pub reserve : r.shared.reserve_samples ≡ settings.reserve
  pub target : r.shared.target_samples ≡ settings.target
  pub max_producer : r.shared.max_producer ≡ settings.max_producer
  pub max_output : r.shared.max_output ≡ settings.max_output
  pub without_plc :
      settings.plc ≡ disabled → (r.consumer.plc ≡ none) × (r.consumer.plc_positions ≡ [])
  pub with_plc :
      settings.plc ≡ g711_appendix_i
      → (plc : Plc F) × (r.consumer.plc ≡ some plc)
        × (length r.consumer.plc_positions ≡ (settings.output_rate_hz * 15 + 4000 - 1) / 4000)

-- A ring that has just been created.
pub record IsFresh {F R C : Type 0} ⦃single : Single F⦄ (settings : Settings) (r : Ring F R C)
    : Type 0 where
  pub accepted : IsAccepted settings
  pub valid : RingIsValid r
  pub configured : IsConfigured settings r
  pub empty : contents r.shared ≡ []
  pub open_to_producer : IsOpen r.shared

module _ {F R C : Type 0} ⦃single : Single F⦄ (double : Double R) where
  configured :
      (settings : Settings) (converter : Converter F R C) (past : ℕ)
      → IsConfigured settings (record {
        shared = fresh_shared double settings converter past;
        consumer = fresh_consumer double settings converter past;
      })
  unfolding lookahead div_ceil
  configured settings converter past = record {
    capacity = refl;
    input_rate = refl;
    output_rate = refl;
    reserve = refl;
    target = refl;
    max_producer = refl;
    max_output = refl;
    without_plc = λ e. rw e (refl, refl);
    with_plc = λ e. rw e (new settings.output_rate_hz, refl, length-replicate _ none);
  }

  new_ring-IsFresh :
      (settings : Settings) (converter : Converter F R C) (past : ℕ)
      → validate double settings ≡ true
      → IsFresh settings (record {
        shared = fresh_shared double settings converter past;
        consumer = fresh_consumer double settings converter past;
      })
  new_ring-IsFresh settings converter past h =
      let v = (validate_lem double settings h).0 in
      let ok = fresh-RingIsValid double settings converter past v in
      record {
        accepted = v;
        valid = ok;
        configured = configured settings converter past;
        empty = contents_nil (fresh_shared double settings converter past) ok.shared refl;
        open_to_producer = record {
          synced = refl;
          free_to_publish = unfold finish_pending is_pending in refl;
        };
      }

  assembled :
      (allocates : Site → Bool) (settings : Settings) (converter : Converter F R C) (frames : ℕ)
      → validate double settings ≡ true
      → OnOk (IsFresh settings) (assemble double allocates settings converter frames)
  unfolding assemble
  assembled allocates settings converter frames accepted =
      let fresh = new_ring-IsFresh settings converter (div_ceil frames billion) accepted in
      through (allocates gaps) (allocates history) (allocates mailbox) (allocates positions) _ fresh
    where
      through :
          (g h m p : Bool) (r : Ring F R C)
          → IsFresh settings r
          → OnOk (IsFresh settings) (
              require g no_memory
              >> (require h no_memory >> (require m no_memory >> (require p no_memory >> ok r))))
      through true true true true r v = v
      through true true true false r v = tt
      through true true false p r v = tt
      through true false m p r v = tt
      through false h m p r v = tt

  assembled_with :
      (allocates : Site → Bool) (settings : Settings) (converter : Converter F R C)
      → validate double settings ≡ true
      → OnOk (IsFresh settings) (assemble_with double allocates settings converter)
  unfolding assemble_with
  assembled_with allocates settings converter accepted =
      let (delay, converter') = input_delay converter in
      >>=-OnOk (IsFresh settings) (or_error delay adapter)
        (assemble double allocates settings converter')
        (λ frames _. assembled allocates settings converter' frames accepted)

  created :
      (allocates : Site → Bool) (settings : Settings) (functions : AdapterFunctions F R C)
      → OnOk (IsFresh settings) (create double allocates settings functions)
  unfolding create
  created allocates settings functions =
      let P : Ring F R C → Type 0 = IsFresh settings in
      let converter : Created (Converter F R C) =
        or_error
          (create_converter functions settings.input_rate_hz settings.output_rate_hz
            settings.capacity converter_quantum)
          adapter in
      let rest : Created (Ring F R C) = converter >>= assemble_with double allocates settings in
      require-OnOk P (validate double settings) invalid
        (require (if uses_plc settings.plc then allocates plc_buffers else true) no_memory
          >> (require (allocates storage) no_memory
              >> (require (allocates input) no_memory
                  >> (require (allocates output) no_memory >> rest))))
        λ accepted.
          let done : OnOk P rest =
            >>=-OnOk P converter (assemble_with double allocates settings)
              (λ c _. assembled_with allocates settings c accepted) in
          through (if uses_plc settings.plc then allocates plc_buffers else true)
            (allocates storage) (allocates input) (allocates output) rest done
    where
      through :
          (a b c d : Bool) (rest : Created (Ring F R C))
          → OnOk (IsFresh settings) rest
          → OnOk (IsFresh settings) (
              require a no_memory
              >> (require b no_memory >> (require c no_memory >> (require d no_memory >> rest))))
      through true true true true rest v = v
      through true true true false rest v = tt
      through true true false d rest v = tt
      through true false c d rest v = tt
      through false b c d rest v = tt

  pub create_lem :
      (allocates : Site → Bool) (settings : Settings) (functions : AdapterFunctions F R C)
      (r : Ring F R C)
      → create double allocates settings functions ≡ ok r
      → IsFresh settings r
  create_lem allocates settings functions r e =
      OnOk-ok (IsFresh settings) (create double allocates settings functions)
        (created allocates settings functions) e
