-- ===== src/Ring/Consumer/Lookahead.antt =====
-- Why the lookahead of src/ring.rs can be drained: the `unwrap` and the index of `drain_finite`.
use rate_adjusting_pcm_ring.Plc.State.{Plc}
use rate_adjusting_pcm_ring.Ring.State.{Ring, Finite}
