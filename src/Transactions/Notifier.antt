-- ===== src/Transactions/Notifier.antt =====
-- The costs that are sent while transactions run: Scheduler.ts and CostNotifier.ts of
-- 03_Modules/Transactions/src/module. A timer is the task that it runs.
use rexharge_citrineos_core.Prelude.{
  ℕ, String, ◌≡◌, refl, Dict, insert, remove, eq_refl, if◌then◌else◌, is_some, Bool-cases, inl, inr,
}
use rexharge_citrineos_core.Prelude.Text.{colon_join}

-- What a timer runs: the notification of one transaction of one tenant.
pub record Task : Type 0 where
  pub station : String
  pub transaction_id : String
  pub tenant : ℕ
  pub interval : ℕ

-- _registry, and the timers that run
pub record Scheduler : Type 0 where
  pub registry : Dict Task

-- schedule
unfoldable pub schedule : String → Task → Scheduler → Scheduler
schedule key task s =
    if is_some (s.registry key) then s else record { registry = insert key task s.registry }

-- unschedule
unfoldable pub unschedule : String → Scheduler → Scheduler
unschedule key s = record { registry = remove key s.registry }

-- _key
abbrev pub task_key : String → String → String
task_key station id = colon_join station id

-- notifyWhileActive
unfoldable pub notify_while_active : String → String → ℕ → ℕ → Scheduler → Scheduler
unfolding schedule
notify_while_active station id tenant interval s =
    schedule (task_key station id)
      (record { station = station; transaction_id = id; tenant = tenant; interval = interval }) s

-- What the database says of the transaction of a task when its timer fires: whether it is active, and
-- what is sent of it, if nothing throws.
pub data Outcome : Type 0 where
  inactive notified failed : Outcome

-- _tryNotify
unfoldable pub try_notify : Task → Outcome → Scheduler → Scheduler
unfolding unschedule
try_notify task inactive s = unschedule (task_key task.station task.transaction_id) s
try_notify task notified s = s
try_notify task failed s = s

schedule-schedule :
    (key : String) (task task' : Task) (s : Scheduler)
    → schedule key task' (schedule key task s) ≡ schedule key task s
unfolding schedule
schedule-schedule key task task' s = elim (Bool-cases (is_some (s.registry key))) [
  | inl h ↦ rw (h, h) refl
  | inr h ↦ rw (h, eq_refl key) refl
]

-- While the costs of a transaction are notified, those of a transaction of another tenant with the same
-- station and number are not: the second schedule changes nothing.
notify_while_active_shadows :
    (station id : String) (tenant other interval interval' : ℕ) (s : Scheduler)
    → notify_while_active station id other interval'
        (notify_while_active station id tenant interval s)
      ≡ notify_while_active station id tenant interval s
unfolding notify_while_active
notify_while_active_shadows station id tenant other interval interval' s =
    schedule-schedule (task_key station id) _ _ s
