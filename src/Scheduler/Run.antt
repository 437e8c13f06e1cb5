-- ===== src/Scheduler/Run.antt =====
-- Scheduler::run, Scheduler::idle and what a fiber can do, as steps of worker threads that
-- interleave. Each step is what one thread does under the mutex, or one access to an atomic
-- counter or to the state of a fiber with what belongs to it.
use server_demo.Common.{
  ℕ, ◌+◌, ◌-◌, ◌≡◌, Bool, true, false, Option, none, some, List, [], ◌∷◌, ◌++◌, get_elem?, set,
  if◌then◌else◌,
}
use server_demo.Fiber.State.{
  Fibers, Thread, State, hold, term, ready, is_exec, is_ready, is_over, state_of, set_state,
  get_this, new_fiber, reset, swap_in, swap_out, finish, throw,
}
use server_demo.Scheduler.Queue.{
  FiberAndThread, Scheduler, schedule, picked, abort, pick, is_stopping,
}

-- Which fiber the loop is in: that of the task, cb_fiber, or idle_fiber.
pub data Job : Type 0 where
  task : Job
  callback : Job
  idling : Job

-- Where a worker is in `run`: at the top of the loop; behind the mutex with `tickle_me` and `ft`;
-- in a fiber; in a fiber that has set its state and has yet to swap out; back from the fiber;
-- behind the decrement of the counter; and behind the loop.
pub data Phase : Type 0 where
  seeking : Phase
  taken : Bool → Option FiberAndThread → Phase
  inside : Job → ℕ → Phase
  leaving : Job → ℕ → Phase
  returned : Job → ℕ → Phase
  counted : Job → ℕ → Phase
  stopped : Phase

-- The locals of `run` on one thread, whose id is its index; `main` is the thread local t_fiber
-- of scheduler.cc.
pub record Worker : Type 0 where
  pub phase : Phase
  pub cb_fiber : Option ℕ
  pub idle_fiber : ℕ
  pub thread : Thread
  pub main : ℕ

-- `idle` is m_idleThreadCount; `tickles` counts the calls of tickle().
pub record World : Type 0 where
  pub fibers : Fibers
  pub sched : Scheduler
  pub idle : ℕ
  pub tickles : ℕ
  pub workers : List Worker

abbrev pub executing : Fibers → ℕ → Bool
executing fs p = elim (state_of p fs) [ none ↦ false | some s ↦ is_exec s ]

abbrev pub put_worker : ℕ → Worker → World → World
put_worker i k w = record w { workers = set w.workers i k }

-- ++ and -- of the counters.
abbrev pub add_active : World → World
add_active w = record w { sched = record w.sched { active = w.sched.active + 1 } }

abbrev pub sub_active : World → World
sub_active w = record w { sched = record w.sched { active = w.sched.active - 1 } }

abbrev pub add_tickle : Bool → World → World
add_tickle b w = record w { tickles = if b then w.tickles + 1 else w.tickles }

-- schedule(ft), from any thread.
unfoldable pub submit : FiberAndThread → World → World
submit ft w = let done = schedule ft w.sched in add_tickle done.0 (record w { sched = done.1 })

-- The search under the mutex, with the increment.
unfoldable pub seek : ℕ → Worker → World → Option World
seek i k w = elim (pick i (executing w.fibers) w.sched.fibers) [
  | abort ↦ none
  | picked tickle found rest ↦
      let left = record w { sched = record w.sched { fibers = rest } } in
      let k' = record k { phase = taken tickle found } in
      elim found [
        | none ↦ some (put_worker i k' left)
        | some ft ↦ some (put_worker i k' (add_active left))
      ]
]

-- Into the fiber `p`.
unfoldable pub enter : Job → ℕ → ℕ → Worker → World → Option World
enter job p i k w = elim (swap_in p k.thread w.fibers) [
  | none ↦ none
  | some (t, fs) ↦
      some (put_worker i (record k { phase = inside job p; thread = t }) (record w { fibers = fs }))
]

-- `ft.fiber` is set and has not ended.
abbrev pub live_fiber : FiberAndThread → Fibers → Option ℕ
live_fiber ft fs = elim ft.fiber [
  | none ↦ none
  | some p ↦ elim (state_of p fs) [ none ↦ none | some s ↦ if is_over s then none else some p ]
]

-- The callback: on the old cb_fiber, which is reset, or on a new one.
unfoldable pub enter_cb : ℕ → ℕ → Worker → World → Option World
unfolding enter
enter_cb cb i k w = elim k.cb_fiber [
  | some c ↦ elim (reset c (some cb) w.fibers) [
    | none ↦ none
    | some fs ↦ enter callback c i k (record w { fibers = fs })
  ]
  | none ↦
      let made = new_fiber (some cb) w.fibers in
      enter callback made.0 i (record k { cb_fiber = some made.0 }) (record w { fibers = made.1 })
]

abbrev pub terminated : ℕ → Fibers → Bool
terminated p fs = elim (state_of p fs) [ some term ↦ true | s ↦ false ]

unfoldable pub enter_idle : ℕ → Worker → World → Option World
unfolding enter
enter_idle i k w =
    if terminated k.idle_fiber w.fibers
    then some (put_worker i (record k { phase = stopped }) w)
    else enter idling k.idle_fiber i k (record w { idle = w.idle + 1 })

-- tickle(), and the branches on what was taken.
unfoldable pub branch : Bool → Option FiberAndThread → ℕ → Worker → World → Option World
unfolding enter enter_cb enter_idle
branch tickle none i k w = enter_idle i k (add_tickle tickle w)
branch tickle (some ft) i k w = elim (live_fiber ft w.fibers) [
  | some p ↦ enter task p i k (add_tickle tickle w)
  | none ↦ elim ft.cb [
    | some cb ↦ enter_cb cb i k (add_tickle tickle w)
    | none ↦ some (put_worker i (record k { phase = seeking }) (sub_active (add_tickle tickle w)))
  ]
]

-- The decrement of the counter when the fiber is back.
unfoldable pub count_down : Job → ℕ → ℕ → Worker → World → World
count_down idling p i k w =
    put_worker i (record k { phase = counted idling p }) (record w { idle = w.idle - 1 })
count_down job p i k w = put_worker i (record k { phase = counted job p }) (sub_active w)

abbrev pub at_top : Worker → Worker
at_top k = record k { phase = seeking }

-- m_state = HOLD, and the next round.
unfoldable pub put_on_hold : ℕ → ℕ → Worker → World → Option World
put_on_hold p i k w = elim (set_state p hold w.fibers) [
  | none ↦ none
  | some fs ↦ some (put_worker i (at_top k) (record w { fibers = fs }))
]

abbrev pub of_fiber : ℕ → FiberAndThread
of_fiber p = record { fiber = some p; cb = none; thread = none }

-- What the loop does with the state that the fiber came back in.
unfoldable pub settle : Job → State → ℕ → ℕ → Worker → World → Option World
unfolding submit put_on_hold
settle task s p i k w =
    if is_ready s
    then some (put_worker i (at_top k) (submit (of_fiber p) w))
    else if is_over s
    then some (put_worker i (at_top k) w)
    else put_on_hold p i k w
settle callback s p i k w =
    if is_ready s
    then some (put_worker i (at_top (record k { cb_fiber = none })) (submit (of_fiber p) w))
    else if is_over s
    then elim (reset p none w.fibers) [
      | none ↦ none
      | some fs ↦ some (put_worker i (at_top k) (record w { fibers = fs }))
    ]
    else put_on_hold p i (record k { cb_fiber = none }) w
settle idling s p i k w =
    if is_over s then some (put_worker i (at_top k) w) else put_on_hold p i k w

-- The next step of the loop on thread `i`; `none` also where the fiber has to move first.
unfoldable pub by_phase : Phase → ℕ → Worker → World → Option World
unfolding seek branch count_down settle
by_phase seeking i k w = seek i k w
by_phase (taken tickle found) i k w = branch tickle found i k w
by_phase (leaving job p) i k w =
    some (put_worker i (record k { phase = returned job p; thread = swap_out k.main k.thread }) w)
by_phase (returned job p) i k w = some (count_down job p i k w)
by_phase (counted job p) i k w = elim (state_of p w.fibers) [
  | none ↦ none
  | some s ↦ settle job s p i k w
]
by_phase p i k w = none

unfoldable pub sched_step : ℕ → World → Option World
unfolding by_phase
sched_step i w = elim (get_elem? w.workers i) [ none ↦ none | some k ↦ by_phase k.phase i k w ]

-- What the code inside a fiber does to the scheduler.
pub data Act : Type 0 where
  submits : FiberAndThread → Act
  yields_ready : Act
  yields_hold : Act
  returns : Act
  throws : Act

-- The fiber's state after YieldToReady, YieldToHold, or the end of MainFunc, before its swapOut.
abbrev pub new_state : Act → ℕ → Fibers → Option Fibers
new_state (submits ft) p fs = some fs
new_state yields_ready p fs = set_state p ready fs
new_state yields_hold p fs = set_state p hold fs
new_state returns p fs = finish p fs
new_state throws p fs = throw p fs

unfoldable pub leave : Act → Job → ℕ → ℕ → Worker → World → Option World
leave a job p i k w = elim (new_state a p w.fibers) [
  | none ↦ none
  | some fs ↦ some (put_worker i (record k { phase = leaving job p }) (record w { fibers = fs }))
]

-- Scheduler::idle looks at stopping() again each time it is resumed.
unfoldable pub idle_act : ℕ → ℕ → Worker → World → Option World
unfolding leave
idle_act p i k w = leave (if is_stopping w.sched then returns else yields_hold) idling p i k w

-- The fiber that runs on thread `i` acts; idle_fiber does what Scheduler::idle says.
unfoldable pub fiber_act : Act → Phase → ℕ → Worker → World → Option World
unfolding leave idle_act submit
fiber_act a (inside idling p) i k w = idle_act p i k w
fiber_act (submits ft) (inside job p) i k w = some (submit ft w)
fiber_act a (inside job p) i k w = leave a job p i k w
fiber_act a phase i k w = none

unfoldable pub act_step : ℕ → Act → World → Option World
unfolding fiber_act
act_step i a w = elim (get_elem? w.workers i) [ none ↦ none | some k ↦ fiber_act a k.phase i k w ]

-- The prologue of `run` on a new thread: its main fiber, and its idle fiber.
abbrev pub new_thread : Thread
new_thread = record { current = none; thread_fiber = none; running = 0 }

unfoldable pub spawn : World → World
unfolding get_this
spawn w =
    let (main, t, fs) = get_this new_thread w.fibers in
    let made = new_fiber none fs in
    record w {
      fibers = made.1;
      workers =
          w.workers
          ++ (record {
            phase = seeking;
            cb_fiber = none;
            idle_fiber = made.0;
            thread = record t { running = main };
            main = main;
          }
              ∷ []);
    }

-- The members after the constructor, and Scheduler::start, which lets the threads enter `run`.
abbrev pub new_world : World
new_world = record {
  fibers = record { heap = []; last_id = 0; count = 0 };
  sched = record { fibers = []; active = 0; auto_stop = false; stopping = true };
  idle = 0;
  tickles = 0;
  workers = [];
}

unfoldable pub start : World → World
start w = if w.sched.stopping then record w { sched = record w.sched { stopping = false } } else w

-- One step of the process: of the loop on a thread, of the fiber on a thread, of a thread outside
-- that schedules, of `start` and the threads that it starts, or of `stop`, which sets its two flags one after the other.
pub data Step (w w' : World) : Type 0 where
  loops : (i : ℕ) → sched_step i w ≡ some w' → Step w w'
  acts : (i : ℕ) (a : Act) → act_step i a w ≡ some w' → Step w w'
  outside : (ft : FiberAndThread) → w' ≡ submit ft w → Step w w'
  starts : w' ≡ start w → Step w w'
  spawns : w' ≡ spawn w → Step w w'
  auto_stops : w' ≡ record w { sched = record w.sched { auto_stop = true } } → Step w w'
  stops : w' ≡ record w { sched = record w.sched { stopping = true } } → Step w w'

pub data Reach (w : World) : World → Type 0 where
  here : Reach w w
  later : {u v : World} → Reach w u → Step u v → Reach w v
