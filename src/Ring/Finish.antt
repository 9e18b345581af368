-- ===== src/Ring/Finish.antt =====
-- The finish word of src/ring.rs: a 62-bit token above a 2-bit `FinishStatus`.
pub mod Protocol
use rate_adjusting_pcm_ring.Common.{
  ℕ, zero, suc, ◌+◌, ◌*◌, ◌/◌, ◌%◌, ◌^◌, ◌≡◌, Bool, true, false, not, ◌&&◌, ◌||◌, Option, none,
  some, ltb, ◌==◌, if◌then◌else◌,
}
use rate_adjusting_pcm_ring.Ring.State.{Shared}

pub data FinishStatus : Type 0 where
  pending drained cancelled adapter_error : FinishStatus

abbrev pub code_of : FinishStatus → ℕ
code_of pending = 0
code_of drained = 1
code_of cancelled = 2
code_of adapter_error = 3

-- `match current & 3`
abbrev pub status_of : ℕ → FinishStatus
status_of zero = pending
status_of (suc zero) = drained
status_of (suc (suc zero)) = cancelled
status_of (suc (suc (suc n))) = adapter_error

-- `current != 0 && current & 3 == 0`
unfoldable pub is_pending : ℕ → Bool
is_pending current = not (current == 0) && current % 4 == 0

-- `(token << 2) | status as u64`
unfoldable pub finish_word : ℕ → FinishStatus → ℕ
finish_word token status = token * 4 + code_of status

module _ {F : Type 0} where
  unfoldable pub finish_pending : Shared F → Bool
  unfolding is_pending
  finish_pending s = is_pending s.finish

  -- `None` is `Err(())`: a burst is outstanding, or the tokens are used up.
  unfoldable pub producer_finish : Shared F → Option ℕ × Shared F
  unfolding is_pending finish_word
  producer_finish s =
      let token = s.finish / 4 + 1 in
      if is_pending s.finish
      then (none, s)
      else if ltb token (2 ^ 62)
      then (some token, record s { finish = finish_word token pending })
      else (none, s)

  unfoldable pub finish_status : Shared F → ℕ → Option FinishStatus
  finish_status s token =
      if token == 0 || not (s.finish / 4 == token) then none else some (status_of (s.finish % 4))
