-- ===== src/Ring/Finish/Protocol.antt =====
-- The life of a finish token in src/ring.rs: granted once at a time, and then given one final outcome.
use rate_adjusting_pcm_ring.Common.{
  ℕ, ◌+◌, ◌/◌, ◌%◌, ◌^◌, ◌<◌, ◌≡◌, ◌≢◌, refl, sym, ap, ◌∙◌, List, Bool, true, false, not, ◌&&◌,
  ◌||◌, Bool-cases, inl, inr, none, some, arith, lt→ltb, ◌==◌, ==_iff, if◌then◌else◌,
}
use rate_adjusting_pcm_ring.Float.{Single, Double}
use rate_adjusting_pcm_ring.Ring.State.{Shared, Ring, count_adapter_error}
use rate_adjusting_pcm_ring.Ring.Finish.{
  FinishStatus, code_of, status_of, is_pending, finish_word, finish_pending, producer_finish,
  finish_status,
}
use rate_adjusting_pcm_ring.Ring.Producer.{producer_push}
use rate_adjusting_pcm_ring.Ring.Producer.Blocks.{pending_gates}
use rate_adjusting_pcm_ring.Ring.Consumer.Cache.{reset, record_shortfall}
use rate_adjusting_pcm_ring.Ring.Consumer.Finite.{discard_failed, next_serial, complete_finite}
use rate_adjusting_pcm_ring.Mute.Mailbox
use rate_adjusting_pcm_ring.Ring.Consumer.Render.{consumer_reset}

pub word_token : (token : ℕ) (status : FinishStatus) → finish_word token status / 4 ≡ token
unfolding finish_word
word_token token FinishStatus.pending = omega arith
word_token token FinishStatus.drained = omega arith
word_token token FinishStatus.cancelled = omega arith
word_token token FinishStatus.adapter_error = omega arith

word_code : (token : ℕ) (status : FinishStatus) → finish_word token status % 4 ≡ code_of status
unfolding finish_word
word_code token FinishStatus.pending = omega arith
word_code token FinishStatus.drained = omega arith
word_code token FinishStatus.cancelled = omega arith
word_code token FinishStatus.adapter_error = omega arith

status_of_code : (status : FinishStatus) → status_of (code_of status) ≡ status
status_of_code FinishStatus.pending = refl
status_of_code FinishStatus.drained = refl
status_of_code FinishStatus.cancelled = refl
status_of_code FinishStatus.adapter_error = refl

differs : (a b : ℕ) → a ≢ b → (a == b) ≡ false
differs a b ne = elim (Bool-cases (a == b)) [ inl e ↦ absurd (ne ((==_iff a b).0 e)) | inr e ↦ e ]

-- A word with a token is pending only in the status `Pending`.
pub pending_word :
    (token : ℕ) (status : FinishStatus)
    → token ≢ 0
    → is_pending (finish_word token status) ≡ (code_of status == 0)
unfolding is_pending
pending_word token status ne =
    let positive : finish_word token status ≢ 0 = unfold finish_word in omega arith in
    rw (differs (finish_word token status) 0 positive, word_code token status) refl

outstanding_word :
    (word : ℕ)
    → is_pending word ≡ true
    → (word / 4 ≢ 0) × (word + 2 ≡ finish_word (word / 4) FinishStatus.cancelled)
unfolding is_pending finish_word
outstanding_word word h =
    let (nonzero, low) = split (word == 0) (word % 4) h in
    let positive : word ≢ 0 = λ p. cc (nonzero, (==_iff word 0).1 p) in (omega arith, omega arith)
  where
    split : (a : Bool) (b : ℕ) → not a && b == 0 ≡ true → (a ≡ false) × (b ≡ 0)
    split true b h = cc
    split false b h = (refl, (==_iff b 0).0 h)

module _ {F : Type 0} where
  -- A query of the token in the word gives its status, and a query of any other token fails.
  pub finish_status_word :
      (s : Shared F) (token : ℕ) (status : FinishStatus)
      → token ≢ 0
      → s.finish ≡ finish_word token status
      → (finish_status s token ≡ some status)
        × ((other : ℕ) → other ≢ token → finish_status s other ≡ none)
  unfolding finish_status
  finish_status_word s token status ne e =
      let same : s.finish / 4 ≡ token = ap (λ n. n / 4) e ∙ word_token token status in
      let read : status_of (s.finish % 4) ≡ status =
        ap (λ n. status_of (n % 4)) e
        ∙ (ap status_of (word_code token status) ∙ status_of_code status) in
      (
        rw (differs token 0 ne, (==_iff (s.finish / 4) token).1 same) (ap some read),
        λ other unlike.
            unknown (other == 0) (s.finish / 4 == other)
              (differs (s.finish / 4) other (λ p. unlike (sym p ∙ same))),
      )
    where
      unknown :
          (a b : Bool)
          → b ≡ false
          → (if a || not b then none else some (status_of (s.finish % 4))) ≡ none
      unknown true b h = refl
      unknown false true h = cc
      unknown false false h = refl

  -- With no burst outstanding and tokens left, `producer_finish` grants the next token and changes
  -- nothing but the finish word: the token is pending, no other token can be queried, and in the
  -- state that it leaves a second request is refused and a push publishes nothing.
  pub producer_finish_lem :
      ⦃single : Single F⦄ (s : Shared F)
      → finish_pending s ≡ false
      → s.finish / 4 + 1 < 2 ^ 62
      → let token = s.finish / 4 + 1 in
        let (out, s') = producer_finish s in
        (out ≡ some token)
        × (s' ≡ record s { finish = s'.finish })
        × (finish_status s' token ≡ some FinishStatus.pending)
        × ((other : ℕ) → other ≢ token → finish_status s' other ≡ none)
        × (producer_finish s' ≡ (none, s'))
        × ((input : List F) → producer_push s' input ≡ (0, s'))
  unfolding producer_finish finish_pending
  producer_finish_lem s idle few =
      let token : ℕ = s.finish / 4 + 1 in
      let s' : Shared F = record s { finish = finish_word token FinishStatus.pending } in
      let positive : token ≢ 0 = omega arith in
      let outstanding : is_pending (finish_word token FinishStatus.pending) ≡ true =
        pending_word token FinishStatus.pending positive in
      let (queried, others) = finish_status_word s' token FinishStatus.pending positive refl in
      rw (idle, lt→ltb token (2 ^ 62) few)
        (
          refl,
          refl,
          queried,
          others,
          rw outstanding,
          λ input. (pending_gates s' input 0 outstanding).0,
        )

module _ {F : Type 0} where
  caught_up :
      (failed : Bool) (s : Shared F)
      → failed ≡ true
      → (discard_failed failed s).read ≡ (discard_failed failed s).written
  unfolding discard_failed count_adapter_error
  caught_up true s e = refl
  caught_up false s e = cc

module _ {F : Type 0} where
  -- What `producer_finish` leaves when it grants a token.
  pub granted :
      (s : Shared F)
      → finish_pending s ≡ false
      → s.finish / 4 + 1 < 2 ^ 62
      → producer_finish s ≡ (
        some (s.finish / 4 + 1),
        record s { finish = finish_word (s.finish / 4 + 1) FinishStatus.pending },
      )
  unfolding producer_finish finish_pending
  granted s idle few = rw (idle, lt→ltb (s.finish / 4 + 1) (2 ^ 62) few) refl

module _ {F R C : Type 0} ⦃single : Single F⦄ ⦃double : Double R⦄ where
  -- A reset cancels the outstanding burst, whether the reset of the adapter succeeds or not: its
  -- token then reads `Cancelled`, and no burst is outstanding.
  pub finish_status-consumer_reset :
      (r : Ring F R C)
      → finish_pending r.shared ≡ true
      → let s = (consumer_reset r).1.shared in
        (finish_status s (r.shared.finish / 4) ≡ some FinishStatus.cancelled)
        × (finish_pending s ≡ false)
  unfolding consumer_reset finish_pending
  finish_status-consumer_reset r e =
      let (positive, word) = outstanding_word r.shared.finish e in
      rw e (
        (finish_status_word
            (record r.shared {
              read = r.shared.written;
              mute_mailbox = Mailbox.reset r.shared.mute_mailbox;
              reset_serial = next_serial r.shared.reset_serial;
              finish = r.shared.finish + 2;
            })
            (r.shared.finish / 4) FinishStatus.cancelled positive word).0,
        ap is_pending word ∙ pending_word (r.shared.finish / 4) FinishStatus.cancelled positive,
      )

  -- The end of a finite burst settles its token: `AdapterError` if the tail or the reset failed,
  -- and then the read cursor has caught up, else `Drained`. No burst is outstanding then, and the
  -- rendered sample is silence that is not real.
  pub complete_finite_lem :
      (r : Ring F R C) (token : ℕ) (adapter_failed : Bool)
      → token ≢ 0
      → let failed = not (reset r.consumer).0 || adapter_failed in
        let (out, r') = complete_finite r token adapter_failed in
        (finish_status r'.shared token
          ≡ some (if failed then FinishStatus.adapter_error else FinishStatus.drained))
        × (finish_pending r'.shared ≡ false)
        × (out ≡ (single.zero, false, failed))
        × (failed ≡ true → r'.shared.read ≡ r'.shared.written)
  unfolding complete_finite
  complete_finite_lem r token adapter_failed ne =
      let failed : Bool = not (reset r.consumer).0 || adapter_failed in
      let status : FinishStatus =
        if failed then FinishStatus.adapter_error else FinishStatus.drained in
      (
        (finish_status_word _ token status ne refl).0,
        unfold finish_pending in pending_word token status ne ∙ final failed,
        refl,
        caught_up failed (
            record_shortfall double
              (record r.shared { reset_serial = next_serial r.shared.reset_serial }) false),
      )
    where
      final :
          (b : Bool)
          → (code_of (if b then FinishStatus.adapter_error else FinishStatus.drained) == 0) ≡ false
      final true = refl
      final false = refl
