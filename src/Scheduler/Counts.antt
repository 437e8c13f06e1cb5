-- ===== src/Scheduler/Counts.antt =====
-- Every step of the scheduler and of the fibers keeps the counters m_activeThreadCount and
-- m_idleThreadCount in step with what the workers do.
use server_demo.Common.{
  ℕ, ◌≤◌, ◌≡◌, Bool, Option, none, some, List, arith, Bool-cases, Option-cases, inl, inr,
}
use server_demo.Fiber.State.{State, is_ready, is_over, reset, new_fiber}
use server_demo.Scheduler.Queue.{FiberAndThread, schedule, Pick, picked, abort, pick}
use server_demo.Scheduler.Run
use server_demo.Scheduler.Run.{
  Job, task, callback, idling, Phase, seeking, taken, inside, leaving, returned, counted, stopped,
  Worker, World, put_worker, seek, enter_cb, enter_idle, branch, count_down, settle, submit,
  by_phase, sched_step, Act, submits, yields_ready, yields_hold, returns, throws, leave, idle_act,
  fiber_act, act_step, Step, loops, acts, outside, auto_stops, stops, Reach, here, later, executing,
  live_fiber, terminated, new_state,
}
use server_demo.Scheduler.Active.{Moves, holds, placed-Moves, enter-Moves, put_on_hold-Moves}

module _ (ws : List Worker) (active idle i : ℕ) where
  pub seek-Moves :
      (k : Worker) (w : World) {w' : World}
      → seek i k w ≡ some w'
      → w.workers ≡ ws
      → w.sched.active ≡ active
      → w.idle ≡ idle
      → Moves ws active idle i seeking w'
  unfolding seek
  seek-Moves k w h e a d = found (pick i (executing w.fibers) w.sched.fibers) h
    where
      found :
          (p : Pick) {w' : World}
          → elim p [
            | abort ↦ none
            | picked tickle ft rest ↦
                let left = record w { sched = record w.sched { fibers = rest } } in
                let k' = record k { phase = taken tickle ft } in
                elim ft [
                  | none ↦ some (put_worker i k' left)
                  | some t ↦ some (put_worker i k' (Run.add_active left))
                ]
          ]
            ≡ some w'
          → Moves ws active idle i seeking w'
      found abort h = cc h
      found (picked tickle none rest) h =
          placed-Moves ws active idle i seeking _ _ h e (omega arith) (omega arith)
      found (picked tickle (some t) rest) h =
          placed-Moves ws active idle i seeking _ _ h e (omega arith) (omega arith)

  enter_cb-Moves :
      (tickle : Bool) (ft : FiberAndThread) (cb : ℕ) (k : Worker) (w : World) {w' : World}
      → enter_cb cb i k w ≡ some w'
      → w.workers ≡ ws
      → w.sched.active ≡ active
      → w.idle ≡ idle
      → Moves ws active idle i (taken tickle (some ft)) w'
  unfolding enter_cb
  enter_cb-Moves tickle ft cb k w h e a d = elim (Option-cases k.cb_fiber) [
    | inl q ↦
        enter-Moves ws active idle i (taken tickle (some ft)) callback _
          (record k { cb_fiber = some (new_fiber (some cb) w.fibers).0 }) _ (rw (q, enter_cb) at h)
          e (omega arith) (omega arith)
    | inr (c, q) ↦ elim (Option-cases (reset c (some cb) w.fibers)) [
      | inl q' ↦ let h' = rw (q, enter_cb, q') at h in cc h'
      | inr (fs, q') ↦
          enter-Moves ws active idle i (taken tickle (some ft)) callback _ k _
            (rw (q, enter_cb, q') at h) e (omega arith) (omega arith)
    ]
  ]

  enter_idle-Moves :
      (tickle : Bool) (k : Worker) (w : World) {w' : World}
      → enter_idle i k w ≡ some w'
      → w.workers ≡ ws
      → w.sched.active ≡ active
      → w.idle ≡ idle
      → Moves ws active idle i (taken tickle none) w'
  unfolding enter_idle
  enter_idle-Moves tickle k w h e a d = elim (Bool-cases (terminated k.idle_fiber w.fibers)) [
    | inl q ↦
        placed-Moves ws active idle i (taken tickle none) (record k { phase = stopped }) w
          (rw (q, enter_idle) at h) e (omega arith) (omega arith)
    | inr q ↦
        enter-Moves ws active idle i (taken tickle none) idling _ k _ (rw (q, enter_idle) at h) e
          (omega arith) (omega arith)
  ]

  pub branch-Moves :
      (tickle : Bool) (found : Option FiberAndThread) (k : Worker) (w : World) {w' : World}
      → branch tickle found i k w ≡ some w'
      → w.workers ≡ ws
      → w.sched.active ≡ active
      → w.idle ≡ idle
      → holds (taken tickle found) ≤ active
      → Moves ws active idle i (taken tickle found) w'
  unfolding branch
  branch-Moves tickle none k w h e a d l =
      enter_idle-Moves tickle k (Run.add_tickle tickle w) h e a d
  branch-Moves tickle (some ft) k w h e a d l = elim (Option-cases (live_fiber ft w.fibers)) [
    | inr (p, q) ↦
        enter-Moves ws active idle i (taken tickle (some ft)) task p k _ (rw (q, branch) at h) e
          (omega arith) (omega arith)
    | inl q ↦ elim (Option-cases ft.cb) [
      | inr (cb, q') ↦
          enter_cb-Moves tickle ft cb k (Run.add_tickle tickle w) (rw (q, branch, q') at h) e a d
      | inl q' ↦
          placed-Moves ws active idle i (taken tickle (some ft)) (Run.at_top k)
            (Run.sub_active (Run.add_tickle tickle w)) (rw (q, branch, q') at h) e (omega arith)
            (omega arith)
    ]
  ]

  pub settle-Moves :
      (job : Job) (s : State) (p : ℕ) (k : Worker) (w : World) {w' : World}
      → settle job s p i k w ≡ some w'
      → w.workers ≡ ws
      → w.sched.active ≡ active
      → w.idle ≡ idle
      → Moves ws active idle i (counted job p) w'
  unfolding settle submit schedule
  settle-Moves task s p k w h e a d = elim (Bool-cases (is_ready s)) [
    | inl q ↦
        placed-Moves ws active idle i (counted task p) (Run.at_top k) (submit (Run.of_fiber p) w)
          (rw (q, settle) at h) e (omega arith) (omega arith)
    | inr q ↦ elim (Bool-cases (is_over s)) [
      | inl q' ↦
          placed-Moves ws active idle i (counted task p) (Run.at_top k) w (rw (q, settle, q') at h)
            e (omega arith) (omega arith)
      | inr q' ↦
          put_on_hold-Moves ws active idle i (counted task p) p k w (rw (q, settle, q') at h) e
            (omega arith) (omega arith)
    ]
  ]
  settle-Moves callback s p k w h e a d = elim (Bool-cases (is_ready s)) [
    | inl q ↦
        placed-Moves ws active idle i (counted callback p)
          (Run.at_top (record k { cb_fiber = none })) (submit (Run.of_fiber p) w)
          (rw (q, settle) at h) e (omega arith) (omega arith)
    | inr q ↦ elim (Bool-cases (is_over s)) [
      | inr q' ↦
          put_on_hold-Moves ws active idle i (counted callback p) p (record k { cb_fiber = none }) w
            (rw (q, settle, q') at h) e (omega arith) (omega arith)
      | inl q' ↦ elim (Option-cases (reset p none w.fibers)) [
        | inl q'' ↦ let h' = rw (q, settle, q', q'') at h in cc h'
        | inr (fs, q'') ↦
            placed-Moves ws active idle i (counted callback p) (Run.at_top k)
              (record w { fibers = fs }) (rw (q, settle, q', q'') at h) e (omega arith)
              (omega arith)
      ]
    ]
  ]
  settle-Moves idling s p k w h e a d = elim (Bool-cases (is_over s)) [
    | inl q ↦
        placed-Moves ws active idle i (counted idling p) (Run.at_top k) w (rw (q, settle) at h) e
          (omega arith) (omega arith)
    | inr q ↦
        put_on_hold-Moves ws active idle i (counted idling p) p k w (rw (q, settle) at h) e
          (omega arith) (omega arith)
  ]
