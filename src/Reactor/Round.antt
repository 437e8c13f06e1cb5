-- ===== src/Reactor/Round.antt =====
-- A round of IOManager::idle: stopping, the time-out, and what it does once epoll_wait is back.
use server_demo.Common.{
  ℕ, zero, suc, ◌+◌, Bool, false, not, ◌&&◌, Option, none, some, List, [], ◌∷◌, ◌++◌, map, ◌==◌,
  ltb, if◌then◌else◌,
}
use server_demo.Common.Int.{ℤ, pos, negsuc, to_int}
use server_demo.Timer.Manager.{TimerManager, get_next_timer, list_expired_cb, no_timer}
use server_demo.Scheduler.Queue.{FiberAndThread, Scheduler, schedule, schedule_all}
use server_demo.Scheduler.Queue
use server_demo.IoManager.State.{IoManager, Task, callback, fiber}
use server_demo.IoManager.Events.{Report, ok, abort, handle_report}

-- An IOManager is a Scheduler, of the number `id`, and a TimerManager; `events` has its own members,
-- where `scheduled` lists what has been handed to other schedulers; `idle` is m_idleThreadCount. `wakes` counts the bytes that `tickle` wrote into the pipe.
pub record Reactor : Type 0 where
  pub id : ℕ
  pub events : IoManager
  pub timers : TimerManager
  pub sched : Scheduler
  pub idle : ℕ
  pub wakes : ℕ

-- IOManager::tickle: it returns where hasIdleThreads() is true.
unfoldable pub tickle : Reactor → Reactor
tickle r = if ltb 0 r.idle then r else record r { wakes = r.wakes + 1 }

-- IOManager::stopping(next_timeout) at the time `now`: the answer, next_timeout, and the state.
unfoldable pub is_stopping : ℕ → Reactor → Bool × ℕ × Reactor
unfolding get_next_timer Queue.is_stopping
is_stopping now r =
    let (next, timers) = get_next_timer now r.timers in
    (
      (r.events.pending == 0) && (next == no_timer) && Queue.is_stopping r.sched,
      next,
      record r { timers = timers },
    )

abbrev pub max_timeout : ℕ
max_timeout = 5000

-- a > MAX_TIMEOUT, on int.
abbrev pub exceeds : ℤ → Bool
exceeds (pos n) = ltb max_timeout n
exceeds (negsuc n) = false

-- The new next_timeout, each time in front of epoll_wait.
unfoldable pub next_timeout : ℕ → ℕ
next_timeout next =
    if not (next == no_timer)
    then if exceeds (to_int next) then max_timeout else next
    else max_timeout

-- The time-out that epoll_wait is given after so many interrupts.
unfoldable pub wait_time : ℕ → ℕ → ℤ
unfolding next_timeout
wait_time zero next = to_int (next_timeout next)
wait_time (suc interrupts) next = wait_time interrupts (next_timeout next)

-- Tasks for the callbacks of the timers; an empty one has no task.
abbrev pub of_cb : Option ℕ → FiberAndThread
of_cb cb = record { fiber = none; cb = cb; thread = none }

-- `if(!cbs.empty()) schedule(cbs.begin(), cbs.end())`, which may tickle.
unfoldable pub schedule_cbs : List (Option ℕ) → Reactor → Reactor
unfolding schedule_all tickle
schedule_cbs [] r = r
schedule_cbs (cb ∷ cbs) r =
    let (tickles, sched) = schedule_all (map of_cb (cb ∷ cbs)) r.sched in
    let r' = record r { sched = sched } in if tickles then tickle r' else r'

-- What epoll_wait reports: the pipe, or a descriptor with whether the epoll_ctl is accepted.
pub data Ready : Type 0 where
  wake_up : Ready
  descriptor : ℕ → Report → Bool → Ready

-- The loop over the reports; `none` is an assertion that fails.
unfoldable pub handle_all : List Ready → IoManager → Option IoManager
unfolding handle_report
handle_all [] m = some m
handle_all (wake_up ∷ rest) m = handle_all rest m
handle_all (descriptor fd report accepted ∷ rest) m = elim (handle_report fd report accepted m) [
  | abort ↦ none
  | ok done m' ↦ handle_all rest m'
]

-- `ctx.scheduler->schedule(...)` in triggerEvent: this scheduler, which may tickle, or another one.
abbrev pub of_task : Task → FiberAndThread
of_task (callback f) = record { fiber = none; cb = some f; thread = none }
of_task (fiber f) = record { fiber = some f; cb = none; thread = none }

unfoldable pub hand_over : ℕ × Task → Reactor → Reactor
unfolding schedule tickle
hand_over (s, t) r =
    let (tickles, sched) = schedule (of_task t) r.sched in
    let r' = record r { sched = sched } in
    if s == r.id
    then if tickles then tickle r' else r'
    else record r { events = record r.events { scheduled = r.events.scheduled ++ ((s, t) ∷ []) } }

unfoldable pub hand_all : List (ℕ × Task) → Reactor → Reactor
unfolding hand_over
hand_all [] r = r
hand_all (t ∷ ts) r = hand_all ts (hand_over t r)

-- What a round comes to: idle is left; it has swapped out; or it aborts.
pub data Outcome : Type 0 where
  exits : Reactor → Outcome
  swaps_out : Reactor → Outcome
  aborts : Outcome

-- The part behind epoll_wait, at the time `now`; `key` is the address of the timer that
-- listExpiredCb makes to compare with. The tasks of the events go to their schedulers in the order
-- in which the loop over the reports hands them over, which reads no queue.
unfoldable pub dispatch : ℕ → ℕ → List Ready → Reactor → Outcome
unfolding list_expired_cb schedule_cbs handle_all hand_all
dispatch now key reports r =
    let (cbs, timers) = list_expired_cb now key r.timers in
    let r' = schedule_cbs cbs (record r { timers = timers }) in
    elim (handle_all reports (record r'.events { scheduled = [] })) [
      | none ↦ aborts
      | some events ↦ swaps_out (
          hand_all events.scheduled
            (record r' { events = record events { scheduled = r'.events.scheduled } }))
    ]

-- The body of `while(true)`: it begins at one time, and epoll_wait is back at another.
unfoldable pub round : ℕ → ℕ → ℕ → List Ready → Reactor → Outcome
unfolding is_stopping dispatch
round before now key reports r =
    let (stops, next, r') = is_stopping before r in
    if stops then exits r' else dispatch now key reports r'
