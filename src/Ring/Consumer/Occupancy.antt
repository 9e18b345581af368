-- ===== src/Ring/Consumer/Occupancy.antt =====
-- The integer low-pass filter of the occupancy controller of src/ring.rs.
use rate_adjusting_pcm_ring.Common.{ℕ, ◌+◌, ◌-◌, ◌/◌, ◌≡◌, ◌≢◌, ◌≤◌, arith, min, max}
use rate_adjusting_pcm_ring.Ring.Consumer.Refill.{smooth}

-- The distance of two measures.
abbrev pub apart : ℕ → ℕ → ℕ
apart a b = (a - b) + (b - a)

-- A filter that has started moves towards the measured occupancy by a 128th of the distance,
-- rounded down, and never past it.
pub smooth_lem :
    (filtered occupancy : ℕ)
    → filtered ≢ 0
    → let next = smooth filtered occupancy in
      (min filtered occupancy ≤ next)
      × (next ≤ max filtered occupancy)
      × (apart next filtered ≡ apart occupancy filtered / 128)
      × (apart next occupancy + apart next filtered ≡ apart occupancy filtered)
unfolding smooth
smooth_lem filtered occupancy ne = ground arith
