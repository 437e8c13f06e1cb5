-- ===== src/Scheduler/Queue.antt =====
-- `FiberAndThread`, `schedule`, and the search of `run` for a task. Each runs under the scheduler's
-- mutex, so each is one step.
use server_demo.Common.{
  ℕ, Bool, true, false, not, ◌&&◌, ◌||◌, Option, none, some, List, [], ◌∷◌, ◌++◌, ◌==◌,
  if◌then◌else◌,
}

-- FiberAndThread. A fiber and a callback are numbers; no thread stands for -1.
pub record FiberAndThread : Type 0 where
  pub fiber : Option ℕ
  pub cb : Option ℕ
  pub thread : Option ℕ

-- The members that the queue is used with.
pub record Scheduler : Type 0 where
  pub fibers : List FiberAndThread
  pub active : ℕ
  pub auto_stop : Bool
  pub stopping : Bool

abbrev pub is_empty : List FiberAndThread → Bool
is_empty [] = true
is_empty (t ∷ ts) = false

-- `ft.fiber || ft.cb`
abbrev pub has_task : FiberAndThread → Bool
has_task t = elim t.fiber [ some f ↦ true | none ↦ elim t.cb [ some f ↦ true | none ↦ false ] ]

-- Scheduler::scheduleNoLock: whether to tickle, and the queue.
unfoldable pub schedule_no_lock : FiberAndThread → List FiberAndThread → Bool × List FiberAndThread
schedule_no_lock ft fibers = (is_empty fibers, if has_task ft then fibers ++ (ft ∷ []) else fibers)

-- Scheduler::schedule(begin, end): the loop, with `need_tickle` so far.
unfoldable pub schedule_loop :
    List FiberAndThread → Bool → List FiberAndThread → Bool × List FiberAndThread
schedule_loop [] need_tickle fibers = (need_tickle, fibers)
schedule_loop (ft ∷ fts) need_tickle fibers =
    let put = schedule_no_lock ft fibers in schedule_loop fts (put.0 || need_tickle) put.1

-- schedule(fc, thread) and schedule(begin, end): whether it tickles, and the scheduler.
unfoldable pub schedule : FiberAndThread → Scheduler → Bool × Scheduler
schedule ft s = let put = schedule_no_lock ft s.fibers in (put.0, record s { fibers = put.1 })

unfoldable pub schedule_all : List FiberAndThread → Scheduler → Bool × Scheduler
schedule_all fts s =
    let put = schedule_loop fts false s.fibers in (put.0, record s { fibers = put.1 })

-- The tests of the loop in `run`, on the thread `me`; `exec` tells which fibers are in the state
-- EXEC.
abbrev pub elsewhere : ℕ → FiberAndThread → Bool
elsewhere me t = elim t.thread [ none ↦ false | some n ↦ not (n == me) ]

abbrev pub executing : (ℕ → Bool) → FiberAndThread → Bool
executing exec t = elim t.fiber [ none ↦ false | some f ↦ exec f ]

-- What the loop comes to: `tickle_me`, the task, and the queue; or the assertion fails.
pub data Pick : Type 0 where
  picked : Bool → Option FiberAndThread → List FiberAndThread → Pick
  abort : Pick

-- The loop goes on behind the task `t`, which stays in the queue.
abbrev pub behind : FiberAndThread → Bool → Pick → Pick
behind t tickle (picked tickle' found rest) = picked (tickle || tickle') found (t ∷ rest)
behind t tickle abort = abort

unfoldable pub pick : ℕ → (ℕ → Bool) → List FiberAndThread → Pick
pick me exec [] = picked false none []
pick me exec (t ∷ ts) =
    let further = pick me exec ts in
    if elsewhere me t
    then behind t true further
    else if not (has_task t)
    then abort
    else if executing exec t
    then behind t false further
    else picked false (some t) ts

-- Scheduler::stopping
unfoldable pub is_stopping : Scheduler → Bool
is_stopping s = s.auto_stop && s.stopping && is_empty s.fibers && (s.active == 0)
