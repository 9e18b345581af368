-- ===== src/Ring/Settings/Valid.antt =====
-- What a configuration that src/ring.rs accepts guarantees.
use native.Mathlib.Nat.{div-lt_iff_lt-mul, add-mul}
use rate_adjusting_pcm_ring.Common.{
  ◌∙◌, ℕ, ◌+◌, ◌≡◌, ◌≤◌, ◌<◌, ◌*◌, ◌-◌, ◌/◌, ◌^◌, ◌⊎◌, inl, inr, Bool-cases, ltb→lt, div_ceil, refl,
  Bool, true, false, not, ◌&&◌, ◌||◌, ltb, leb→le, ◌==◌, arith,
}
use rate_adjusting_pcm_ring.Float.{Double}
use rate_adjusting_pcm_ring.Ring.Settings.{
  PlcMode, disabled, g711_appendix_i, minimum_capacity, maximum_capacity, max_block, Settings,
  callback_budget, has_headroom, validate,
}

-- The reserve holds one sample more than the largest callback consumes at the worst ratio: the nominal
-- ratio less a thousandth, but at least 1/256.
abbrev pub HoldsCallback : Settings → Type 0
HoldsCallback s =
    (0 < s.reserve)
    × (((s.output_rate_hz * 999 * 256 < s.input_rate_hz * 1000)
          × (s.max_output * 256 ≤ s.reserve - 1))
        ⊎ ((s.input_rate_hz * 1000 ≤ s.output_rate_hz * 999 * 256)
            × (s.max_output * (s.input_rate_hz * 1000)
                ≤ (s.reserve - 1) * (s.output_rate_hz * 999))))

-- Room for the largest callback in the reserve, and for one producer block above the target.
abbrev pub Headroom : Settings → PlcMode → Type 0
Headroom s disabled = Unit {0}
Headroom s g711_appendix_i =
    HoldsCallback s × (s.reserve ≤ s.target) × (s.target + s.max_producer ≤ s.capacity)

-- The documented bounds on the ratio of the two rates.
abbrev pub HasRatio : {R : Type 0} → Double R → Settings → Type 0
HasRatio double s =
    let ratio = double.div (double.of_count s.output_rate_hz) (double.of_count s.input_rate_hz) in
    (double.le (double.div (double.of_count 1) (double.of_count 256)) ratio ≡ true)
    × (double.le ratio (double.of_count 256) ≡ true)

pub record IsAccepted (s : Settings) : Type 0 where
  pub at_least : 512 ≤ s.capacity
  pub at_most : s.capacity ≤ 2 ^ 32 - 1
  pub input_rate : 0 < s.input_rate_hz
  pub output_rate : 0 < s.output_rate_hz
  pub reserve : s.reserve ≤ s.capacity
  pub target : s.target ≤ s.capacity
  pub producer_block : (0 < s.max_producer) × (s.max_producer ≤ (2 ^ 63 - 1) / 4)
  pub output_block : (0 < s.max_output) × (s.max_output ≤ (2 ^ 63 - 1) / 4)
  pub headroom : Headroom s s.plc

not_below : (a b : ℕ) → ltb a b ≡ false → b ≤ a
not_below a b h = ground arith

-- A quotient rounded up covers its dividend.
le-div_ceil : (n d k : ℕ) → 0 < d → div_ceil n d ≤ k → n ≤ k * d
unfolding div_ceil
le-div_ceil n d k pos h =
    let below : n + d - 1 < (k + 1) * d = (div-lt_iff_lt-mul {k = d} pos).0 (omega arith) in
    let unfolded : (k + 1) * d ≡ k * d + d = add-mul k 1 d ∙ omega arith in omega arith

callback_budget-HoldsCallback :
    (s : Settings)
    → 0 < s.output_rate_hz
    → callback_budget s.input_rate_hz s.output_rate_hz s.max_output ≤ s.reserve
    → HoldsCallback s
unfolding callback_budget
callback_budget-HoldsCallback s some_rate h =
    let n : ℕ = s.output_rate_hz * 999 in
    let d : ℕ = s.input_rate_hz * 1000 in
    elim (Bool-cases (ltb (n * 256) d)) [
      | inl e ↦ let h' = rw e at h in (omega arith, inl (ltb→lt (n * 256) d e, omega arith))
      | inr e ↦
          let h' = rw e at h in
          (
            omega arith,
            inr (
              not_below (n * 256) d e,
              le-div_ceil (s.max_output * d) n (s.reserve - 1) (omega arith) (omega arith),
            ),
          )
    ]

has_headroom-Headroom :
    (s : Settings) (mode : PlcMode)
    → 0 < s.output_rate_hz
    → has_headroom s mode ≡ true
    → Headroom s mode
unfolding has_headroom
has_headroom-Headroom s disabled some_rate e = tt
has_headroom-Headroom s g711_appendix_i some_rate e =
    (callback_budget-HoldsCallback s some_rate (ground arith), ground arith, ground arith)

or_false : (a b : Bool) → (a || b) ≡ false → (a ≡ false) × (b ≡ false)
or_false true b h = cc
or_false false b h = (refl, h)

and_true : (a b : Bool) → (a && b) ≡ true → (a ≡ true) × (b ≡ true)
and_true true b h = (refl, h)
and_true false b h = cc

negated_true : (a : Bool) → not a ≡ true → a ≡ false
negated_true true h = cc
negated_true false h = refl

negated_false : (a : Bool) → not a ≡ false → a ≡ true
negated_false true h = refl
negated_false false h = cc

positive : (n : ℕ) → (n == 0) ≡ false → 0 < n
positive n h = ground arith

-- An accepted configuration has a capacity from 512 to 2^32 - 1, positive rates, whose ratio of output to
-- input lies from 1/256 through 256 as `f64` compares it, positive block sizes of at most a quarter of
-- 2^63 - 1, and a reserve and a target within the capacity. With concealment on, the reserve holds one
-- sample more than the largest callback consumes at the worst ratio, the target is at least the reserve,
-- and a producer block fits above the target.
pub validate_lem :
    {R : Type 0} (double : Double R) (s : Settings)
    → validate double s ≡ true
    → IsAccepted s × HasRatio double s
unfolding validate
validate_lem {R} double s h =
    let (g, head) = and_true _ _ h in
    let (a1, block_output) = or_false _ _ (negated_true _ g) in
    let (a2, block_producer) = or_false _ _ a1 in
    let (a3, some_output) = or_false _ _ a2 in
    let (a4, some_producer) = or_false _ _ a3 in
    let (a5, below_target) = or_false _ _ a4 in
    let (a6, below_reserve) = or_false _ _ a5 in
    let (a7, ratio) = or_false _ _ a6 in
    let (a8, output_rate) = or_false _ _ a7 in
    let (range, input_rate) = or_false _ _ a8 in
    let (ratio_low, ratio_high) = and_true _ _ (negated_false _ ratio) in
    let (low, high) = and_true _ _ (negated_false _ range) in
    (
      record {
        at_least = leb→le minimum_capacity s.capacity low;
        at_most = leb→le s.capacity maximum_capacity high;
        input_rate = positive s.input_rate_hz input_rate;
        output_rate = positive s.output_rate_hz output_rate;
        reserve = not_below s.capacity s.reserve below_reserve;
        target = not_below s.capacity s.target below_target;
        producer_block = (
          positive s.max_producer some_producer,
          not_below max_block s.max_producer block_producer,
        );
        output_block =
            (positive s.max_output some_output, not_below max_block s.max_output block_output);
        headroom = has_headroom-Headroom s s.plc (positive s.output_rate_hz output_rate) head;
      },
      (ratio_low, ratio_high),
    )
