-- ===== src/Cache/Memory.antt =====
-- MemoryCache (02_Util/src/cache/memory.ts). The event loop's clock (in milliseconds) and its running
-- timeouts are part of the state; `tick` lets a millisecond pass and runs the timeouts that are due.
-- A waiter is one call of onChange. The two subscription maps of the source are set and deleted
-- together, so one map from keys to the waiters of the shared promise stands for both. The source's
-- Proxy has traps for assignment and deletion of properties, which Map's own methods never reach: no
-- operation below passes through them.
pub mod Invariant
pub mod Deletion
pub mod Expiry
pub mod Refines
pub mod Waiting
mod Tests
use rexharge_citrineos_core.Prelude.{
  ℕ, zero, suc, ◌+◌, ◌*◌, String, Option, none, some, Bool, true, false, List, [], ◌∷◌, ◌++◌, Dict,
  empty, insert, remove, is_some, if◌then◌else◌, str_eq, leb, ◌==◌, not,
}
use rexharge_citrineos_core.Cache.Store.{full_key, truthy}

-- What a timeout does: delete an entry, or settle a waiter with the value of its key.
pub data Task : Type 0 where
  expire : String → Task
  wake : ℕ → String → Task

pub record Timer : Type 0 where
  pub id : ℕ
  pub due : ℕ
  pub task : Task

pub record MemoryCache : Type 0 where
  pub entries : Dict String
  pub timeouts : Dict ℕ
  pub waiting : String → List ℕ
  pub settled : ℕ → Option (Option String)
  pub timers : List Timer
  pub next_id : ℕ
  pub now : ℕ

abbrev pub init : MemoryCache
init = record {
  entries = empty;
  timeouts = empty;
  waiting = λ key. [];
  settled = λ waiter. none;
  timers = [];
  next_id = 0;
  now = 0;
}

abbrev pub seconds : ℕ → ℕ
seconds s = s * 1000

-- clearTimeout
pub cancel : ℕ → List Timer → List Timer
cancel id [] = []
cancel id (t ∷ ts) = let rest = cancel id ts in if t.id == id then rest else t ∷ rest

-- clearTimeout(this._timeoutMap.get(key)), if the map has the key
abbrev pub clear_timeout : Option ℕ → List Timer → List Timer
clear_timeout none ts = ts
clear_timeout (some id) ts = cancel id ts

-- The delay that setTimeout takes: one that is less than 1 or does not fit in 31 bits becomes 1.
abbrev pub timer_delay : ℕ → ℕ
timer_delay zero = 1
timer_delay (suc n) = if leb (suc n) 2147483647 then suc n else 1

-- setTimeout
pub start : Task → ℕ → MemoryCache → MemoryCache
start task delay c = record c {
  timers = c.timers ++ record { id = c.next_id; due = c.now + timer_delay delay; task = task } ∷ [];
  next_id = suc c.next_id;
}

-- A promise takes its first value only.
abbrev pub settle : ℕ → Option String → (ℕ → Option (Option String)) → ℕ → Option (Option String)
settle waiter v m j = if waiter == j then (if is_some (m j) then m j else some v) else m j

settle_all : List ℕ → Option String → (ℕ → Option (Option String)) → ℕ → Option (Option String)
settle_all [] v m = m
settle_all (w ∷ ws) v m = settle_all ws v (settle w v m)

-- resolveOnChange, with the callback that onChange stored
pub resolve_on_change : String → String → MemoryCache → MemoryCache
unfolding settle_all
resolve_on_change key value c = record c {
  settled = settle_all (c.waiting key) (some value) c.settled;
  waiting = λ j. if str_eq key j then [] else c.waiting j;
}

-- exists, get and remove: `remove` neither stops a timeout nor tells a waiter
pub exists : String → Option String → MemoryCache → Bool
exists key namespace c = is_some (c.entries (full_key key namespace))

pub get : String → Option String → MemoryCache → Option String
get key namespace c = truthy (c.entries (full_key key namespace))

pub remove_key : String → Option String → MemoryCache → Bool × MemoryCache
remove_key key namespace c = (
  is_some (c.entries (full_key key namespace)),
  record c { entries = remove (full_key key namespace) c.entries },
)

-- `if (expireSeconds)`: a new timeout, noted in the map of timeouts
pub expire_after : String → Option ℕ → MemoryCache → MemoryCache
unfolding start
expire_after k none c = c
expire_after k (some zero) c = c
expire_after k (some (suc e)) c = record (start (expire k) (seconds (suc e)) c) {
  timeouts = insert k c.next_id c.timeouts;
}

-- what set and setIfNotExist do with a namespaced key once they write
pub store : String → String → Option ℕ → MemoryCache → MemoryCache
unfolding expire_after resolve_on_change
store k value e c = resolve_on_change k value (
    expire_after k e (record c {
      entries = insert k value c.entries;
      timers = clear_timeout (c.timeouts k) c.timers;
    }))

pub set : String → String → Option String → Option ℕ → MemoryCache → MemoryCache
set key value namespace e c = store (full_key key namespace) value e c

pub set_if_not_exist : String → String → Option String → Option ℕ → MemoryCache → Bool × MemoryCache
set_if_not_exist key value namespace e c =
    if is_some (c.entries (full_key key namespace))
    then (false, c)
    else (true, store (full_key key namespace) value e c)

-- onChange: a new waiter joins the promise of its key, and a timeout ends the wait
pub on_change : String → ℕ → Option String → MemoryCache → ℕ × MemoryCache
unfolding start
on_change key wait namespace c =
    let k = full_key key namespace in
    let joined = record c {
      waiting = λ j. if str_eq k j then c.waiting j ++ c.next_id ∷ [] else c.waiting j;
    } in
    (c.next_id, start (wake c.next_id k) (seconds wait) joined)

pub fire : Task → MemoryCache → MemoryCache
fire (expire k) c = record c { entries = remove k c.entries }
fire (wake w k) c = record c { settled = settle w (truthy (c.entries k)) c.settled }

-- the timeouts that are due, and the others, each in the order in which they were started
pub due_timers : ℕ → List Timer → List Timer
due_timers now [] = []
due_timers now (t ∷ ts) = let rest = due_timers now ts in if leb t.due now then t ∷ rest else rest

pub later_timers : ℕ → List Timer → List Timer
later_timers now [] = []
later_timers now (t ∷ ts) =
    let rest = later_timers now ts in if leb t.due now then rest else t ∷ rest

pub fire_all : List Timer → MemoryCache → MemoryCache
unfolding fire
fire_all [] c = c
fire_all (t ∷ ts) c = fire_all ts (fire t.task c)

pub tick : MemoryCache → MemoryCache
unfolding fire_all due_timers later_timers
tick c =
    fire_all (due_timers (suc c.now) c.timers)
      (record c { now = suc c.now; timers = later_timers (suc c.now) c.timers })

-- n milliseconds in which nothing is called
pub wait : ℕ → MemoryCache → MemoryCache
unfolding tick
wait zero c = c
wait (suc n) c = wait n (tick c)
