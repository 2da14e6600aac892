-- ===== src/CircuitBreaker/Reconnect/Tests.antt =====
-- The reconnection over one loss of the broker.
use rexharge_citrineos_core.Prelude.{none, some, List, [], ◌∷◌, arith}
use rexharge_citrineos_core.CircuitBreaker.Reconnect.{
  init, max_delay_of, Event, lost, attempt, back, run,
}
use rexharge_citrineos_core.CircuitBreaker.Reconnect.Backoff.{IsBackingOff, run-IsBackingOff}

abbrev outage : List Event
outage = lost (some "down") ∷ attempt ∷ lost none ∷ attempt ∷ back ∷ []

run-IsBackingOff_example : IsBackingOff (max_delay_of (some 4)) (run (init (some 4)) outage)
run-IsBackingOff_example = run-IsBackingOff (some 4) outage (omega arith)
