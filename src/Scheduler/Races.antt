-- ===== src/Scheduler/Races.antt =====
-- What can happen between the steps of `run`: a fiber that is resumed before it has swapped out.
use server_demo.Common.{
  ℕ, ◌+◌, ◌≡◌, ◌≢◌, false, Option, none, some, [], get_elem?, set, get_elem?-set_self,
  get_elem?-set_ne, arith,
}
use server_demo.Fiber.State.{Fiber, set_state, swap_in, hold, exec}
use server_demo.Scheduler.Queue.{schedule, schedule_no_lock, pick}
use server_demo.Scheduler.Run.{
  task, seeking, taken, inside, leaving, Phase, Worker, World, submit, seek, branch, enter,
  by_phase, sched_step, of_fiber, put_worker,
}

abbrev pub phase_at : ℕ → World → Option Phase
phase_at i w = elim (get_elem? w.workers i) [ none ↦ none | some k ↦ some k.phase ]

-- If a fiber has yielded to hold and has yet to swap out, and nothing else is queued, a thread
-- outside that schedules it lets another worker take it and swap into it in two steps, while the
-- first worker is still on the fiber's stack.
pub yield_to_hold_race :
    (w : World) (i j p : ℕ) (f : Fiber) (k : Worker)
    → i ≢ j
    → phase_at i w ≡ some (leaving task p)
    → get_elem? w.workers j ≡ some k
    → k.phase ≡ seeking
    → get_elem? w.fibers.heap p ≡ some f
    → f.state ≡ hold
    → w.sched.fibers ≡ []
    → (w₁ w₂ : World) × (sched_step j (submit (of_fiber p) w) ≡ some w₁)
      × (sched_step j w₁ ≡ some w₂)
      × (phase_at i w₂ ≡ some (leaving task p))
      × (phase_at j w₂ ≡ some (inside task p))
unfolding submit schedule schedule_no_lock sched_step by_phase seek branch enter swap_in set_state
    pick
yield_to_hold_race w i j p f k n at_i at_j seeks at_p held empty = (
  taking,
  resumed,
  ground (arith, at_j, seeks, at_p, held, empty),
  ground (
    arith,
    get_elem?-set_self w.workers j k (record k { phase = taken false (some (of_fiber p)) }),
    at_j,
    at_p,
    held,
  ),
  ground (
    arith,
    at_i,
    get_elem?-set_ne w.workers i j (record k { phase = taken false (some (of_fiber p)) }),
    get_elem?-set_ne (set w.workers j (record k { phase = taken false (some (of_fiber p)) })) i j
        (record k {
          phase = inside task p;
          thread = record k.thread { current = some p; running = p };
        }),
    n,
  ),
  ground (
    arith,
    get_elem?-set_self w.workers j k (record k { phase = taken false (some (of_fiber p)) }),
    at_j,
    get_elem?-set_self (set w.workers j (record k { phase = taken false (some (of_fiber p)) })) j
        (record k { phase = taken false (some (of_fiber p)) })
        (record k {
          phase = inside task p;
          thread = record k.thread { current = some p; running = p };
        }),
  ),
)
  where
    queued : World
    queued = submit (of_fiber p) w

    taking : World
    taking =
        put_worker j (record k { phase = taken false (some (of_fiber p)) })
          (record queued { sched = record w.sched { fibers = []; active = w.sched.active + 1 } })

    resumed : World
    resumed =
        put_worker j
          (record k {
            phase = inside task p;
            thread = record k.thread { current = some p; running = p };
          })
          (record taking {
            fibers = record w.fibers { heap = set w.fibers.heap p (record f { state = exec }) };
          })
