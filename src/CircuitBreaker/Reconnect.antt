-- ===== src/CircuitBreaker/Reconnect.antt =====
-- How the router follows its circuit breaker (03_Modules/OcppRouter/src/module/router.ts, from
-- handleCircuitBreakerStateChange on): the delay of the next attempt in seconds, the attempts that
-- wait for their timeout, and the interval that runs while the breaker is CLOSED.
pub mod Backoff
mod Tests
use rexharge_citrineos_core.Prelude.{
  ℕ, ◌*◌, min, String, Option, none, some, List, [], ◌∷◌, ◌++◌, ltb, if◌then◌else◌,
}
use rexharge_citrineos_core.CircuitBreaker.{
  BreakerState, open_state, failing, closed, CircuitBreaker, new_breaker, Change, Emits,
  trigger_failure, trigger_success, close,
}

pub record Reconnect : Type 0 where
  pub breaker : CircuitBreaker
  pub delay : ℕ
  pub max_delay : ℕ
  pub attempts : List ℕ
  pub interval : Option ℕ

-- config.maxReconnectDelay ?? DEFAULT_MAX_RECONNECT_DELAY
abbrev pub max_delay_of : Option ℕ → ℕ
max_delay_of none = 30
max_delay_of (some n) = n

pub init : Option ℕ → Reconnect
init max = record {
  breaker = new_breaker;
  delay = 1;
  max_delay = max_delay_of max;
  attempts = [];
  interval = none;
}

-- onCircuitBreakerClosed: a running interval is cleared and a new one started
on_closed : Reconnect → Reconnect
on_closed r = record r { interval = some r.max_delay }

-- onCircuitBreakerOpen
on_open : Reconnect → Reconnect
on_open r = record r { interval = none }

-- The handler of CLOSED and OPEN.
settle_change : BreakerState → Reconnect → Reconnect
unfolding on_closed on_open
settle_change closed r = on_closed (record r { delay = 1 })
settle_change open_state r = on_open (record r { delay = 1 })
settle_change failing r = r

after_close : Emits → Reconnect → Reconnect
unfolding settle_change
after_close (b, none) r = record r { breaker = b }
after_close (b, some change) r = settle_change change.to (record r { breaker = b })

-- _attemptExponentialReconnect
attempt_reconnect : Reconnect → Reconnect
unfolding after_close
attempt_reconnect r =
    if ltb r.max_delay r.delay
    then after_close (close (some "Max reconnect delay reached") r.breaker) r
    else record r { attempts = r.attempts ++ r.delay ∷ [] }

-- handleCircuitBreakerStateChange
handle_change : BreakerState → Reconnect → Reconnect
unfolding settle_change attempt_reconnect
handle_change failing r = attempt_reconnect r
handle_change closed r = settle_change closed r
handle_change open_state r = settle_change open_state r

-- The breaker's operation, and the callback on the change that it emits.
after : Emits → Reconnect → Reconnect
unfolding handle_change
after (b, none) r = record r { breaker = b }
after (b, some change) r = handle_change change.to (record r { breaker = b })

pub on_broker_disconnect : Option String → Reconnect → Reconnect
unfolding after
on_broker_disconnect reason r = after (trigger_failure reason r.breaker) r

pub on_broker_reconnect : Reconnect → Reconnect
unfolding after
on_broker_reconnect r = after (trigger_success r.breaker) r

-- The callback of an attempt's timeout: first the reconnection, then the next delay.
pub attempt_due : Reconnect → Reconnect
attempt_due r =
    let r' = on_broker_reconnect r in record r' { delay = min (r'.delay * 2) r'.max_delay }

-- What can happen: the broker is lost or is back, the first waiting attempt is due, or the interval is.
pub data Event : Type 0 where
  lost : Option String → Event
  back : Event
  attempt : Event
  round : Event

pub run_attempt : List ℕ → Reconnect → Reconnect
unfolding attempt_due
run_attempt [] r = r
run_attempt (d ∷ ds) r = attempt_due (record r { attempts = ds })

pub run_round : Option ℕ → Reconnect → Reconnect
run_round none r = r
run_round (some period) r = on_broker_reconnect r

pub step : Reconnect → Event → Reconnect
unfolding run_attempt run_round
step r (lost reason) = on_broker_disconnect reason r
step r back = on_broker_reconnect r
step r attempt = run_attempt r.attempts r
step r round = run_round r.interval r

pub run : Reconnect → List Event → Reconnect
run r [] = r
run r (e ∷ es) = run (step r e) es
