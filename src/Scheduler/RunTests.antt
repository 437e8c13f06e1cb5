-- ===== src/Scheduler/RunTests.antt =====
-- A scheduler with one thread that takes a callback, and the theorems at concrete inputs.
use server_demo.Common.{
  ◌≡◌, ◌↔◌, ℕ, ◌+◌, refl, true, false, Option, none, some, List, [], ◌∷◌, All, arith, map,
}
use server_demo.Fiber.State.{
  Fiber, init, exec, hold, State, get_this, new_main, new_fiber, set_state, swap_in,
}
use server_demo.Scheduler.Queue.{FiberAndThread, schedule, schedule_no_lock, is_stopping, pick}
use server_demo.Scheduler.Run.{
  World, Worker, Phase, Reach, here, later, starts, spawns, outside, loops, submit, start, spawn,
  new_world, sched_step, task, callback, inside, leaving, seeking, by_phase, seek, branch, enter_cb,
  enter, of_fiber,
}
use server_demo.Scheduler.Active.{holds}
use server_demo.Scheduler.Invariant.{is_stopping_iff}
use server_demo.Scheduler.Races.{phase_at, yield_to_hold_race}
use server_demo.Scheduler.Stages.{of_cb, Stage}
use server_demo.Scheduler.Drain.{Calls, drains}

abbrev advance : Option World → World
advance none = new_world
advance (some w) = w

-- One thread with the callback 7 in its queue, up to the point where it is in the fiber.
abbrev started : World
started = submit (of_cb 7) (spawn (start new_world))

abbrev searched : World
searched = advance (sched_step 0 started)

abbrev entered : World
entered = advance (sched_step 0 searched)

entered-Reach : Reach new_world entered
unfolding submit spawn start sched_step by_phase seek branch enter_cb enter schedule
    schedule_no_lock get_this new_main new_fiber pick swap_in set_state
entered-Reach =
    later
      (later (later (later (later here (starts refl)) (spawns refl)) (outside (of_cb 7) refl))
        (loops 0 refl))
      (loops 0 refl)

entered_inside : phase_at 0 entered ≡ some (inside callback 2)
unfolding submit spawn start sched_step by_phase seek branch enter_cb enter schedule
    schedule_no_lock get_this new_main new_fiber pick swap_in set_state
entered_inside = refl

is_stopping_iff_example : (is_stopping entered.sched ≡ true) ↔ (
    (entered.sched.auto_stop ≡ true)
    × (entered.sched.stopping ≡ true)
    × (entered.sched.fibers ≡ [])
    × All (λ k. holds k.phase ≡ 0) entered.workers)
is_stopping_iff_example = is_stopping_iff entered-Reach

-- Two workers, whose main fibers are 0 and 1: the first one's fiber 4 has yielded to hold and has
-- yet to swap out; the second has the fiber 5 for its callbacks.
abbrev worker : Phase → Option ℕ → ℕ → Worker
worker phase cb_fiber main = record {
  phase = phase;
  cb_fiber = cb_fiber;
  idle_fiber = main + 2;
  thread = record { current = some main; thread_fiber = some main; running = main };
  main = main;
}

abbrev fiber : ℕ → State → Fiber
fiber id state = record { id = id; state = state; cb = none; stack = true }

abbrev two_workers : List FiberAndThread → World
two_workers fibers = record {
  fibers = record {
    heap =
        fiber 0 exec
        ∷ fiber 0 exec
        ∷ fiber 1 hold
        ∷ fiber 2 hold
        ∷ fiber 3 hold
        ∷ fiber 4 init
        ∷ [];
    last_id = 4;
    count = 6;
  };
  sched = record { fibers = fibers; active = 1; auto_stop = false; stopping = false };
  idle = 0;
  tickles = 0;
  workers = worker (leaving task 4) none 0 ∷ worker seeking (some 5) 1 ∷ [];
}

yield_to_hold_race_example :
    (w₁ w₂ : World) × (sched_step 1 (submit (of_fiber 4) (two_workers [])) ≡ some w₁)
    × (sched_step 1 w₁ ≡ some w₂)
    × (phase_at 0 w₂ ≡ some (leaving task 4))
    × (phase_at 1 w₂ ≡ some (inside task 4))
yield_to_hold_race_example =
    yield_to_hold_race (two_workers []) 0 1 4 (fiber 3 hold) (worker seeking (some 5) 1)
      (omega arith) refl refl refl refl refl refl

drains_example :
    (w' : World) × Calls 1 5 (7 ∷ 8 ∷ []) (two_workers (map of_cb (7 ∷ 8 ∷ []))) w'
    × (s' : State) × (old' : Option ℕ) × Stage 1 5 seeking s' old' [] 1 w'
drains_example =
    drains 1 5 (7 ∷ 8 ∷ []) init none 1 (two_workers (map of_cb (7 ∷ 8 ∷ []))) refl (record {
      worker = worker seeking (some 5) 1;
      at = refl;
      in_phase = refl;
      has_fiber = refl;
      fiber = fiber 4 init;
      fiber_at = refl;
      in_state = refl;
      with_cb = refl;
      with_stack = refl;
      queue = refl;
      counts = refl;
    })
