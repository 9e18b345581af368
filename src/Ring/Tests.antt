-- ===== src/Ring/Tests.antt =====
-- src/ring.rs on concrete values: counted numbers in place of the two float types, and a converter that
-- copies its input.
pub mod Consumer
pub mod Steps
use rate_adjusting_pcm_ring.Common.{
  ℕ, zero, suc, ◌+◌, ◌-◌, ◌*◌, ◌/◌, ◌≡◌, ◌≤◌, ◌<◌, ◌≢◌, ◌^◌, refl, sym, subst, List, [], ◌∷◌, ◌++◌,
  map, take, replicate, Option, none, some, Bool, true, false, not, ◌||◌, length, arith, inl, inr,
  min, ltb, leb, div_ceil, sat_add, ◌==◌, if◌then◌else◌, u64_max,
}
use rate_adjusting_pcm_ring.Common.Int.{ℤ, pos}
use rate_adjusting_pcm_ring.Float.{Single, Double, Widen}
use rate_adjusting_pcm_ring.Adapter.{
  AdapterFunctions, Converter, Processed, create_converter, input_delay, process,
}
use rate_adjusting_pcm_ring.Ring.Settings.{
  Settings, disabled, g711_appendix_i, validate, callback_budget, has_headroom,
}
use rate_adjusting_pcm_ring.Ring.State.{Ring, Shared, SourceSample}
use rate_adjusting_pcm_ring.Ring.State.Queue.{IsValid, contents}
use rate_adjusting_pcm_ring.Ring.Create.{
  Site, Created, ok, create, fresh_shared, fresh_consumer, assemble, assemble_with,
}
use rate_adjusting_pcm_ring.Ring.Create.Fresh.{IsFresh, create_lem}
use rate_adjusting_pcm_ring.Common.Cursor.{distance, advance}
use rate_adjusting_pcm_ring.Mute.Types.{Span, Stamp}
use rate_adjusting_pcm_ring.Mute.Mailbox.{free, new}
use rate_adjusting_pcm_ring.Mute.Mailbox.Refine.{contents as queued, clipped_batch}
use rate_adjusting_pcm_ring.Ring.Settings.Valid.{IsAccepted, HasRatio, validate_lem}
use rate_adjusting_pcm_ring.Ring.State.{consumer_take_source_sample, count_discarded}
use rate_adjusting_pcm_ring.Ring.State.Queue.{take_spec, take_refines}
use rate_adjusting_pcm_ring.Ring.Producer.{
  producer_publish, producer_push, producer_gap, producer_push_tagged, producer_mute, pcm_slot,
  gap_slot, all_admissible, is_admissible, is_discontiguous,
}
use rate_adjusting_pcm_ring.Ring.Producer.Publish.{
  IsOpen, HasRoom, stamp_after, Appended, publish_open, publish_full,
}
use rate_adjusting_pcm_ring.Ring.Producer.Blocks.{
  space, Published, producer_push_lem, producer_gap_lem, pending_gates,
}
use rate_adjusting_pcm_ring.Ring.Producer.Tagged.{
  IsAdmissible, Tagged, producer_push_tagged_lem, producer_push_tagged_refused, producer_mute_lem,
}
use rate_adjusting_pcm_ring.Ring.Finish.{finish_pending, is_pending}
use rate_adjusting_pcm_ring.Ring.Producer.{sync_producer_epoch}
use rate_adjusting_pcm_ring.Ring.State.Queue.{length-contents}

instance abbrev pub counted : Single ℕ
counted = record {
  zero = 0;
  one = 1;
  is_finite = λ x. true;
  clamp_unit = λ x. x;
  is_zero = λ x. x == 0;
  of_count = λ n. n;
  add = λ x y. x + y;
  sub = λ x y. x - y;
  mul = λ x y. x * y;
  div = λ x y. x / y;
  max = λ x y. if leb x y then y else x;
}

instance abbrev pub wide_counted : Double ℕ
wide_counted = record {
  of_count = λ n. n;
  add = λ x y. x + y;
  sub = λ x y. x - y;
  mul = λ x y. x * y;
  div = λ x y. x / y;
  sqrt = λ x. x;
  lt = ltb;
  le = leb;
  clamp = λ x low high. if ltb x low then low else if ltb high x then high else x;
  is_finite = λ x. true;
  is_zero = λ x. x == 0;
  neg_infinity = 0;
  round = λ x. x;
  to_i32 = pos;
  to_u64 = λ x. x;
}

abbrev pub widening : Widen ℕ ℕ
widening = record { widen = λ x. x }

-- Its handle counts the input that it was given.
abbrev pub copying : AdapterFunctions ℕ ℕ ℕ
copying = record {
  create = λ input_rate output_rate max_input max_output. (pos 0, some 0);
  reset = λ handle. (pos 0, 0);
  process = λ handle input count ratio. record {
    result = pos 0;
    handle = handle + min (length input) count;
    samples = take count input;
    used = min (length input) count;
    generated = min (length input) count;
  };
  queued_input = λ handle. (pos 0, 0, handle);
  output_delay = λ handle. (pos 0, 0, handle);
  input_delay = λ handle. (pos 0, pos 0, handle);
}

abbrev pub settings : Settings
settings = record {
  capacity = 512;
  input_rate_hz = 8000;
  output_rate_hz = 8000;
  reserve = 160;
  target = 320;
  max_producer = 160;
  max_output = 100;
  plc = g711_appendix_i;
}

abbrev pub converter : Converter ℕ ℕ ℕ
converter = record { handle = 0; functions = copying; output_delay_samples = 0 }

abbrev pub fresh : Ring ℕ ℕ ℕ
fresh = record {
  shared = fresh_shared wide_counted settings converter 0;
  consumer = fresh_consumer wide_counted settings converter 0;
}

pub created_fresh : create wide_counted (λ site. true) settings copying ≡ ok fresh
unfolding create validate callback_budget div_ceil create_converter input_delay
created_fresh = refl

pub fresh-IsFresh : IsFresh settings fresh
fresh-IsFresh = create_lem wide_counted (λ site. true) settings copying fresh created_fresh

validate_lem_example : IsAccepted settings × HasRatio wide_counted settings
unfolding validate callback_budget div_ceil has_headroom
validate_lem_example = validate_lem wide_counted settings refl

abbrev pub shared : Shared ℕ
shared = fresh.shared

pub shared-IsValid : IsValid shared
shared-IsValid = fresh-IsFresh.valid.shared

pub shared-IsOpen : IsOpen shared
shared-IsOpen = fresh-IsFresh.open_to_producer

abbrev pub three : List ℕ
three = 7 ∷ 8 ∷ 9 ∷ []

-- A ring of three samples.
abbrev pub stocked : Shared ℕ
stocked = (producer_push shared three).1

pub three_pushed :
    ((producer_push shared three).0 ≡ min 3 (space shared))
    × Published shared stocked (map pcm_slot three)
three_pushed = producer_push_lem shared three shared-IsValid shared-IsOpen (omega arith) tt

producer_push_lem_example :
    ((producer_push shared three).0 ≡ min 3 (space shared))
    × Published shared stocked (map pcm_slot three)
producer_push_lem_example =
    producer_push_lem shared three shared-IsValid shared-IsOpen (omega arith) tt

producer_gap_lem_example :
    ((producer_gap stocked 2).0 ≡ min 2 (space stocked))
    × Published stocked (producer_gap stocked 2).1 (replicate 2 gap_slot)
unfolding stamp_after
producer_gap_lem_example =
    producer_gap_lem stocked 2 three_pushed.1.valid three_pushed.1.is_open
      (subst (λ t. HasRoom t 2) (sym three_pushed.1.stamp) tt)

take_refines_example :
    let (out, s') = consumer_take_source_sample stocked in
    IsValid s' × (take_spec (contents stocked) ≡ (out, contents s'))
take_refines_example = take_refines stocked three_pushed.1.valid

abbrev pub sample : SourceSample ℕ
sample = pcm_slot 5

publish_open_example :
    ((producer_publish shared sample).0 ≡ true)
    × Appended shared (producer_publish shared sample).1 sample
publish_open_example =
    publish_open shared sample shared-IsValid shared-IsOpen (rw fresh-IsFresh.empty (omega arith))
      tt

abbrev pub one_span : List Span
one_span = record { start = 101; end = 103 } ∷ []

admissible : IsAdmissible shared 3 1 100 one_span
unfolding all_admissible is_admissible is_discontiguous
admissible = record {
  positions_fit = omega arith;
  block_fits = omega arith;
  few_spans = omega arith;
  spans_lie = refl;
  contiguous = refl;
}

pub credit : length one_span ≤ free shared.mute_mailbox
unfolding free new distance
credit = omega arith

some_fits : 0 < min (length three) (space shared)
some_fits = rw fresh-IsFresh.empty (omega arith)

abbrev tagged : Shared ℕ
tagged = (producer_push_tagged shared three 1 100 one_span).1

push_of_three :
    let n = min (length three) (space shared) in
    ((producer_push_tagged shared three 1 100 one_span).0 ≡ some n)
    × Tagged shared tagged three 1 100 n one_span
push_of_three =
    producer_push_tagged_lem shared three 1 100 one_span shared-IsValid shared-IsOpen admissible
      credit some_fits

producer_push_tagged_lem_example :
    let n = min (length three) (space shared) in
    ((producer_push_tagged shared three 1 100 one_span).0 ≡ some n)
    × Tagged shared tagged three 1 100 n one_span
producer_push_tagged_lem_example =
    producer_push_tagged_lem shared three 1 100 one_span shared-IsValid shared-IsOpen admissible
      credit some_fits

-- A span behind the accepted end.
abbrev late_span : List Span
late_span = record { start = 101; end = 109 } ∷ []

late_refused : (producer_push_tagged shared three 1 100 late_span).0 ≡ none
unfolding producer_push_tagged all_admissible is_discontiguous sync_producer_epoch finish_pending
    is_pending
late_refused = refl

producer_push_tagged_refused_example :
    let after = (producer_push_tagged shared three 1 100 late_span).1 in
    (shared.producer_epoch ≡ shared.reset_serial → after ≡ shared)
    × (shared.producer_epoch ≢ shared.reset_serial
        → after ≡ record shared { producer_stamp = none; producer_epoch = shared.reset_serial })
producer_push_tagged_refused_example =
    producer_push_tagged_refused shared three 1 100 late_span shared-IsOpen.free_to_publish
      (inl late_refused)

abbrev marked : Shared ℕ
marked = record shared { producer_stamp = some (record { generation = 1; source = 103 }) }

marked-IsValid : IsValid marked
marked-IsValid =
    let v = shared-IsValid in
    record {
      at_least = v.at_least;
      at_most = v.at_most;
      size = v.size;
      written_lt = v.written_lt;
      read_lt = v.read_lt;
      fits = v.fits;
      mailbox = v.mailbox;
      discarded_fits = v.discarded_fits;
    }

spans_lie : all_admissible marked.capacity 103 103 one_span ≡ true
unfolding all_admissible is_admissible
spans_lie = refl

producer_mute_lem_example :
    let n = min (length one_span) (free marked.mute_mailbox) in
    let (out, s') = producer_mute marked 1 one_span in
    (out ≡ some n)
    × (queued s'.mute_mailbox ≡ queued marked.mute_mailbox ++ clipped_batch 1 103 (take n one_span))
    × (s' ≡ record marked { mute_mailbox = s'.mute_mailbox })
    × IsValid s'
producer_mute_lem_example =
    producer_mute_lem marked (record { generation = 1; source = 103 }) 1 one_span marked-IsValid
      refl refl refl (omega arith) spans_lie

abbrev pub gated : Shared ℕ
gated = record shared { finish = 4 }

pub gated-pending : finish_pending gated ≡ true
unfolding finish_pending is_pending
gated-pending = refl
