-- ===== src/Plc/Tests.antt =====
-- src/plc.rs on concrete values.
use rate_adjusting_pcm_ring.Common.{none, arith}
use rate_adjusting_pcm_ring.Plc.State.{new}
use rate_adjusting_pcm_ring.Plc.Process.{process}
use rate_adjusting_pcm_ring.Plc.Sound.{IsSound}
use rate_adjusting_pcm_ring.Plc.Sound.Step.{process-IsSound, new-IsSound}
use rate_adjusting_pcm_ring.Ring.Tests.{counted, wide_counted, widening}

process-IsSound_example : IsSound (process wide_counted widening (new 8000) none).1
process-IsSound_example =
    process-IsSound wide_counted widening (new 8000) none
      (new-IsSound 8000 (omega arith) (omega arith))
