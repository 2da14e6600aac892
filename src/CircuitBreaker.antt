-- ===== src/CircuitBreaker.antt =====
-- CircuitBreaker (00_Base/src/interfaces/modules/CircuitBreaker.ts). OPEN is the state in which the
-- broker is reachable. An operation gives the new state and the change that it emits, if any; the
-- registered callbacks are run on it by the owner.
pub mod Reconnect
use rexharge_citrineos_core.Prelude.{String, Option, none, some, Bool, true, false}

pub data BreakerState : Type 0 where
  open_state failing closed : BreakerState

pub record CircuitBreaker : Type 0 where
  pub state : BreakerState
  pub last_reason : Option String

abbrev pub new_breaker : CircuitBreaker
new_breaker = record { state = open_state; last_reason = none }

-- What a callback is called with.
pub record Change : Type 0 where
  pub to : BreakerState
  pub reason : Option String

abbrev pub Emits : Type 0
Emits = CircuitBreaker × Option Change

fail_from : BreakerState → Option String → CircuitBreaker → Emits
fail_from closed reason b = (b, none)
fail_from failing reason b = (record b { last_reason = reason }, none)
fail_from open_state reason b = (
  record { state = failing; last_reason = reason },
  some (record { to = failing; reason = reason }),
)

pub trigger_failure : Option String → CircuitBreaker → Emits
unfolding fail_from
trigger_failure reason b = fail_from b.state reason b

succeed_from : BreakerState → CircuitBreaker → Emits
succeed_from open_state b = (b, none)
succeed_from state b =
    (record b { state = open_state }, some (record { to = open_state; reason = none }))

pub trigger_success : CircuitBreaker → Emits
unfolding succeed_from
trigger_success b = succeed_from b.state b

pub reset : CircuitBreaker → Emits
reset b = (record b { state = open_state }, some (record { to = open_state; reason = none }))

close_from : BreakerState → Option String → CircuitBreaker → Emits
close_from closed reason b = (b, none)
close_from state reason b =
    (record b { state = closed }, some (record { to = closed; reason = reason }))

pub close : Option String → CircuitBreaker → Emits
unfolding close_from
close reason b = close_from b.state reason b
