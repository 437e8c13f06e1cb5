-- ===== src/Reactor/Composed.antt =====
-- What a round of `idle` does to the scheduler, the timers and the events together.
use server_demo.Common.{
  ℕ, ◌+◌, Bool, true, false, not, ◌&&◌, Option, none, some, List, [], ◌∷◌, ◌++◌, ltb, if◌then◌else◌,
}
use server_demo.Timer.Manager.{TimerManager}
use server_demo.Timer.Invariant
use server_demo.Scheduler.Queue.{FiberAndThread, Scheduler, is_empty}
use server_demo.IoManager.State.{IoManager}
use server_demo.Reactor.HandOver.{own_tasks, other_tasks, woken_for}
use server_demo.Reactor.Round.{Reactor, of_cb}

-- The tasks for the callbacks that are not empty.
abbrev pub tasks_of : List (Option ℕ) → List FiberAndThread
tasks_of [] = []
tasks_of (none ∷ cbs) = tasks_of cbs
tasks_of (some f ∷ cbs) = of_cb (some f) ∷ tasks_of cbs

abbrev pub no_cbs : List (Option ℕ) → Bool
no_cbs [] = true
no_cbs (cb ∷ cbs) = false

-- Whether the round writes into the pipe: there was nothing to do, there is now, and no thread
-- idles.
abbrev pub woken : List (Option ℕ) → Reactor → ℕ
woken cbs r =
    if is_empty r.sched.fibers && not (no_cbs cbs) then (if ltb 0 r.idle then 0 else 1) else 0

-- What the round leaves, where `cbs` are the callbacks of the timers that are due, and the reports
-- leave `events`, with the tasks that they hand over.
abbrev pub left_by : List (Option ℕ) → TimerManager → IoManager → Reactor → Reactor
left_by cbs timers events r =
    let own = own_tasks r.id events.scheduled in
    let fibers = r.sched.fibers ++ tasks_of cbs in
    record r {
      sched = record r.sched { fibers = fibers ++ own };
      timers = timers;
      events = record events {
        scheduled = r.events.scheduled ++ other_tasks r.id events.scheduled;
      };
      wakes = r.wakes + woken cbs r + woken_for own fibers r.idle;
    }
