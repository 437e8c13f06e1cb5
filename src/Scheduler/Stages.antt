-- ===== src/Scheduler/Stages.antt =====
-- The stages of a worker of `run` that takes a callback, and the step from each to the next.
use server_demo.Common.{
  ℕ, ◌+◌, ◌-◌, ◌≡◌, refl, true, false, ◌||◌, Option, none, some, List, ◌∷◌, get_elem?, set,
  get_elem?-set_self, arith,
}
use server_demo.Fiber.State.{
  Fiber, State, init, exec, term, is_over, is_init, set_state, swap_in, swap_out, reset, finish,
}
use server_demo.Scheduler.Queue.{FiberAndThread, Scheduler, pick}
use server_demo.Scheduler.Run.{
  callback, seeking, taken, inside, leaving, returned, counted, Phase, Worker, World, seek, branch,
  enter, enter_cb, count_down, settle, by_phase, sched_step, act_step, fiber_act, leave, returns,
  put_worker, Step, loops, acts,
}

abbrev pub of_cb : ℕ → FiberAndThread
of_cb cb = record { fiber = none; cb = some cb; thread = none }

-- The worker `i` is in the phase, its cb_fiber is `c`, in the state and with the callback, and
-- the queue and the counter are as they are given.
pub record Stage (i c : ℕ) (phase : Phase) (s : State) (cb : Option ℕ) (ts : List FiberAndThread)
    (active : ℕ) (w : World) : Type 0 where
  pub worker : Worker
  pub at : get_elem? w.workers i ≡ some worker
  pub in_phase : worker.phase ≡ phase
  pub has_fiber : worker.cb_fiber ≡ some c
  pub fiber : Fiber
  pub fiber_at : get_elem? w.fibers.heap c ≡ some fiber
  pub in_state : fiber.state ≡ s
  pub with_cb : fiber.cb ≡ cb
  pub with_stack : fiber.stack ≡ true
  pub queue : w.sched.fibers ≡ ts
  pub counts : w.sched.active ≡ active

-- The next stage, and the step that leads to it.
abbrev pub Next : ℕ → World → (World → Type 0) → Type 0
Next i w P = (w' : World) × Step w w' × P w'

module _ (i c : ℕ) {ts : List FiberAndThread} {active : ℕ} {w : World} where
  pub seeks :
      {s : State} {old : Option ℕ} (cb : ℕ)
      → Stage i c seeking s old (of_cb cb ∷ ts) active w
      → Next i w (Stage i c (taken false (some (of_cb cb))) s old ts (active + 1))
  unfolding sched_step by_phase seek pick
  seeks cb g =
      let k' : Worker = record g.worker { phase = taken false (some (of_cb cb)) } in
      let w' : World =
        put_worker i k'
          (record w { sched = record w.sched { fibers = ts; active = w.sched.active + 1 } }) in
      (
        w',
        loops i (ground (arith, g.at, g.in_phase, g.queue)),
        record {
          worker = k';
          at = get_elem?-set_self w.workers i g.worker k' g.at;
          in_phase = refl;
          has_fiber = g.has_fiber;
          fiber = g.fiber;
          fiber_at = g.fiber_at;
          in_state = g.in_state;
          with_cb = g.with_cb;
          with_stack = g.with_stack;
          queue = refl;
          counts = omega (arith, g.counts);
        },
      )

  pub enters :
      {s : State} {old : Option ℕ} (cb : ℕ)
      → (is_over s || is_init s) ≡ true
      → Stage i c (taken false (some (of_cb cb))) s old ts active w
      → Next i w (Stage i c (inside callback c) exec (some cb) ts active)
  unfolding sched_step by_phase branch enter_cb enter reset swap_in set_state
  enters {s} cb can g =
      let k' : Worker = record g.worker {
        phase = inside callback c;
        thread = record g.worker.thread { current = some c; running = c };
      } in
      let f : Fiber = record g.fiber { state = init; cb = some cb } in
      let f' : Fiber = record g.fiber { state = exec; cb = some cb } in
      let w' : World =
        put_worker i k'
          (record w { fibers = record w.fibers { heap = set (set w.fibers.heap c f) c f' } }) in
      let reset_at = get_elem?-set_self w.fibers.heap c g.fiber f g.fiber_at in
      (
        w',
        loops i (
            ground (
              arith, g.at, g.in_phase, g.has_fiber, g.fiber_at, g.in_state, g.with_stack, reset_at,
              can,
            )),
        record {
          worker = k';
          at = get_elem?-set_self w.workers i g.worker k' g.at;
          in_phase = refl;
          has_fiber = g.has_fiber;
          fiber = f';
          fiber_at = get_elem?-set_self (set w.fibers.heap c f) c f f' reset_at;
          in_state = refl;
          with_cb = refl;
          with_stack = g.with_stack;
          queue = g.queue;
          counts = g.counts;
        },
      )

  pub ends :
      {cb : Option ℕ}
      → Stage i c (inside callback c) exec cb ts active w
      → Next i w (Stage i c (leaving callback c) term none ts active)
  unfolding act_step fiber_act leave finish
  ends g =
      let k' : Worker = record g.worker { phase = leaving callback c } in
      let f : Fiber = record g.fiber { state = term; cb = none } in
      let w' : World =
        put_worker i k' (record w { fibers = record w.fibers { heap = set w.fibers.heap c f } }) in
      (
        w',
        acts i returns (ground (arith, g.at, g.in_phase, g.fiber_at)),
        record {
          worker = k';
          at = get_elem?-set_self w.workers i g.worker k' g.at;
          in_phase = refl;
          has_fiber = g.has_fiber;
          fiber = f;
          fiber_at = get_elem?-set_self w.fibers.heap c g.fiber f g.fiber_at;
          in_state = refl;
          with_cb = refl;
          with_stack = g.with_stack;
          queue = g.queue;
          counts = g.counts;
        },
      )

  -- A step that changes the worker and the counter only.
  moves_on :
      {phase phase' : Phase} {s : State} {cb : Option ℕ} (k' : Worker) (sched : Scheduler)
      (g : Stage i c phase s cb ts active w)
      → sched_step i w ≡ some (put_worker i k' (record w { sched = sched }))
      → k'.phase ≡ phase'
      → k'.cb_fiber ≡ some c
      → sched.fibers ≡ ts
      → (active' : ℕ) → sched.active ≡ active'
      → Next i w (Stage i c phase' s cb ts active')
  moves_on k' sched g h e e' q active' a = (
    put_worker i k' (record w { sched = sched }),
    loops i h,
    record {
      worker = k';
      at = get_elem?-set_self w.workers i g.worker k' g.at;
      in_phase = e;
      has_fiber = e';
      fiber = g.fiber;
      fiber_at = g.fiber_at;
      in_state = g.in_state;
      with_cb = g.with_cb;
      with_stack = g.with_stack;
      queue = q;
      counts = a;
    },
  )

  pub swaps_out :
      {s : State} {cb : Option ℕ}
      → Stage i c (leaving callback c) s cb ts active w
      → Next i w (Stage i c (returned callback c) s cb ts active)
  unfolding sched_step by_phase
  swaps_out g =
      moves_on
        (record g.worker {
          phase = returned callback c;
          thread = swap_out g.worker.main g.worker.thread;
        })
        w.sched g (ground (arith, g.at, g.in_phase)) refl g.has_fiber g.queue active g.counts

  pub counts_down :
      {s : State} {cb : Option ℕ}
      → Stage i c (returned callback c) s cb ts active w
      → Next i w (Stage i c (counted callback c) s cb ts (active - 1))
  unfolding sched_step by_phase count_down
  counts_down g =
      moves_on (record g.worker { phase = counted callback c })
        (record w.sched { active = w.sched.active - 1 }) g (ground (arith, g.at, g.in_phase)) refl
        g.has_fiber g.queue (active - 1) (omega (arith, g.counts))

  pub settles :
      Stage i c (counted callback c) term none ts active w
      → Next i w (Stage i c seeking init none ts active)
  unfolding sched_step by_phase settle reset
  settles g =
      let k' : Worker = record g.worker { phase = seeking } in
      let f : Fiber = record g.fiber { state = init; cb = none } in
      let w' : World =
        put_worker i k' (record w { fibers = record w.fibers { heap = set w.fibers.heap c f } }) in
      (
        w',
        loops i (ground (arith, g.at, g.in_phase, g.fiber_at, g.in_state, g.with_stack)),
        record {
          worker = k';
          at = get_elem?-set_self w.workers i g.worker k' g.at;
          in_phase = refl;
          has_fiber = g.has_fiber;
          fiber = f;
          fiber_at = get_elem?-set_self w.fibers.heap c g.fiber f g.fiber_at;
          in_state = refl;
          with_cb = refl;
          with_stack = g.with_stack;
          queue = g.queue;
          counts = g.counts;
        },
      )
