-- ===== src/Common/Words.antt =====
-- Unsigned machine words: `saturating_add` of `u64`, and `div_ceil`.
use Prim.Native.Nat.{ℕ, ◌+◌, ◌-◌, ◌*◌, ◌/◌, ◌^◌, ◌≤◌}
use mathlib.Core.Path.{◌≡◌}
use native.Mathlib.Omega.{arith}
use rate_adjusting_pcm_ring.Common.Tests.{leb, if◌then◌else◌}

abbrev pub u64_max : ℕ
u64_max = 2 ^ 64 - 1

-- `u64::saturating_add`
unfoldable pub sat_add : ℕ → ℕ → ℕ
sat_add a b = if leb (a + b) u64_max then a + b else u64_max

pub sat_add-le : (a b : ℕ) → sat_add a b ≤ u64_max
unfolding sat_add
sat_add-le a b = ground arith

pub sat_add-exact : (a b : ℕ) → a + b ≤ u64_max → sat_add a b ≡ a + b
unfolding sat_add
sat_add-exact a b h = ground arith

pub le-sat_add : (a b : ℕ) → a ≤ u64_max → a ≤ sat_add a b
unfolding sat_add
le-sat_add a b h = ground arith

-- Saturating additions in a row add up.
pub sat_add_assoc : (a b c : ℕ) → sat_add (sat_add a b) c ≡ sat_add a (b + c)
unfolding sat_add
sat_add_assoc a b c = ground arith

-- `n.div_ceil(d)`
unfoldable pub div_ceil : ℕ → ℕ → ℕ
div_ceil n d = (n + d - 1) / d

-- `u64::saturating_mul`
unfoldable pub sat_mul : ℕ → ℕ → ℕ
sat_mul a b = if leb (a * b) u64_max then a * b else u64_max
