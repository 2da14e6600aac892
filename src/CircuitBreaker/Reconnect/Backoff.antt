-- ===== src/CircuitBreaker/Reconnect/Backoff.antt =====
-- What the delays and the states of the reconnection are, after any events.
use rexharge_citrineos_core.Prelude.{
  ℕ, ◌≤◌, ◌≡◌, ◌≢◌, refl, String, Option, none, some, List, [], ◌∷◌, ◌++◌, Bool, true, false, All,
  is_some, arith,
}
use rexharge_citrineos_core.CircuitBreaker.{
  BreakerState, closed, trigger_failure, trigger_success, close,
}
use rexharge_citrineos_core.CircuitBreaker.Reconnect.{
  Reconnect, init, max_delay_of, on_broker_disconnect, on_broker_reconnect, attempt_due,
  run_attempt, run_round, Event, lost, back, attempt, round, step, run,
}

abbrev is_closed : BreakerState → Bool
is_closed closed = true
is_closed s = false

-- The interval runs exactly while the breaker is CLOSED.
abbrev pub IsInStep : Reconnect → Type 0
IsInStep r = is_some r.interval ≡ is_closed r.breaker.state

lost-IsInStep :
    (reason : Option String) (r : Reconnect) → IsInStep r → IsInStep (on_broker_disconnect reason r)
unfolding on_broker_disconnect trigger_failure close
lost-IsInStep reason r h = ground arith

back-IsInStep : (r : Reconnect) → IsInStep r → IsInStep (on_broker_reconnect r)
unfolding on_broker_reconnect trigger_success
back-IsInStep r h = ground arith

attempt_due-IsInStep : (r : Reconnect) → IsInStep r → IsInStep (attempt_due r)
unfolding attempt_due
attempt_due-IsInStep r h = back-IsInStep r h

run_attempt-IsInStep : (ds : List ℕ) (r : Reconnect) → IsInStep r → IsInStep (run_attempt ds r)
unfolding run_attempt
run_attempt-IsInStep [] r h = h
run_attempt-IsInStep (d ∷ ds) r h = attempt_due-IsInStep (record r { attempts = ds }) h

run_round-IsInStep : (i : Option ℕ) (r : Reconnect) → IsInStep r → IsInStep (run_round i r)
unfolding run_round
run_round-IsInStep none r h = h
run_round-IsInStep (some period) r h = back-IsInStep r h

step-IsInStep : (r : Reconnect) (e : Event) → IsInStep r → IsInStep (step r e)
unfolding step
step-IsInStep r (lost reason) h = lost-IsInStep reason r h
step-IsInStep r back h = back-IsInStep r h
step-IsInStep r attempt h = run_attempt-IsInStep r.attempts r h
step-IsInStep r round h = run_round-IsInStep r.interval r h

run_keeps_IsInStep : (es : List Event) (r : Reconnect) → IsInStep r → IsInStep (run r es)
unfolding run
run_keeps_IsInStep [] r h = h
run_keeps_IsInStep (e ∷ es) r h = run_keeps_IsInStep es (step r e) (step-IsInStep r e h)

-- After any events, whatever the configured maximum, the reconnection interval runs exactly while the
-- breaker is CLOSED.
run-IsInStep : (max : Option ℕ) (es : List Event) → IsInStep (run (init max) es)
run-IsInStep max es = run_keeps_IsInStep es (init max) (unfold init in refl)

-- The breaker is not CLOSED, and neither the next delay nor one that runs is over the maximum.
pub record IsBackingOff (max : ℕ) (r : Reconnect) : Type 0 where
  pub not_closed : r.breaker.state ≢ closed
  pub max_kept : r.max_delay ≡ max
  pub within : r.delay ≤ max
  pub running : All (λ d. d ≤ max) r.attempts

All-concat :
    (max : ℕ) (ds : List ℕ) (d : ℕ)
    → All (λ k. k ≤ max) ds
    → d ≤ max
    → All (λ k. k ≤ max) (ds ++ d ∷ [])
All-concat max [] d h k = (k, tt)
All-concat max (e ∷ ds) d (p, h) k = (p, All-concat max ds d h k)

module _ (max : ℕ) (pos : 1 ≤ max) where
  lost-IsBackingOff :
      (reason : Option String) (r : Reconnect)
      → IsBackingOff max r
      → IsBackingOff max (on_broker_disconnect reason r)
  unfolding on_broker_disconnect trigger_failure close
  lost-IsBackingOff reason r h =
      ground (arith, All-concat max r.attempts r.delay h.running h.within)

  back-IsBackingOff :
      (r : Reconnect) → IsBackingOff max r → IsBackingOff max (on_broker_reconnect r)
  unfolding on_broker_reconnect trigger_success
  back-IsBackingOff r h = ground arith

  attempt_due-IsBackingOff : (r : Reconnect) → IsBackingOff max r → IsBackingOff max (attempt_due r)
  unfolding attempt_due
  attempt_due-IsBackingOff r h =
      let b = back-IsBackingOff r h in
      record {
        not_closed = b.not_closed;
        max_kept = b.max_kept;
        within = let same = b.max_kept in omega arith;
        running = b.running;
      }

  run_attempt-IsBackingOff :
      (ds : List ℕ) (r : Reconnect)
      → All (λ k. k ≤ max) ds
      → IsBackingOff max r
      → IsBackingOff max (run_attempt ds r)
  unfolding run_attempt
  run_attempt-IsBackingOff [] r ks h = h
  run_attempt-IsBackingOff (d ∷ ds) r (k, ks) h =
      attempt_due-IsBackingOff (record r { attempts = ds })
        (record {
          not_closed = h.not_closed;
          max_kept = h.max_kept;
          within = h.within;
          running = ks;
        })

  run_round-IsBackingOff :
      (i : Option ℕ) (r : Reconnect) → IsBackingOff max r → IsBackingOff max (run_round i r)
  unfolding run_round
  run_round-IsBackingOff none r h = h
  run_round-IsBackingOff (some period) r h = back-IsBackingOff r h

  step-IsBackingOff : (r : Reconnect) (e : Event) → IsBackingOff max r → IsBackingOff max (step r e)
  unfolding step
  step-IsBackingOff r (lost reason) h = lost-IsBackingOff reason r h
  step-IsBackingOff r back h = back-IsBackingOff r h
  step-IsBackingOff r attempt h = run_attempt-IsBackingOff r.attempts r h.running h
  step-IsBackingOff r round h = run_round-IsBackingOff r.interval r h

  run_keeps_IsBackingOff :
      (es : List Event) (r : Reconnect) → IsBackingOff max r → IsBackingOff max (run r es)
  unfolding run
  run_keeps_IsBackingOff [] r h = h
  run_keeps_IsBackingOff (e ∷ es) r h =
      run_keeps_IsBackingOff es (step r e) (step-IsBackingOff r e h)

-- With a maximum delay of at least one second no sequence of losses, recoveries and timeouts takes the
-- router's breaker to CLOSED: neither the next delay nor one that runs ever passes the maximum.
pub run-IsBackingOff :
    (max : Option ℕ) (es : List Event)
    → 1 ≤ max_delay_of max
    → IsBackingOff (max_delay_of max) (run (init max) es)
run-IsBackingOff max es pos =
    run_keeps_IsBackingOff (max_delay_of max) pos es (init max)
      (unfold init in record { not_closed = λ e. cc; max_kept = refl; within = pos; running = tt })
