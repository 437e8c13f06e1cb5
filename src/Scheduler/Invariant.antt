-- ===== src/Scheduler/Invariant.antt =====
-- What holds of a scheduler in every world that it can reach.
use server_demo.Common.{
  ℕ, ◌+◌, ◌≤◌, ◌≡◌, refl, sym, ◌∙◌, ◌++◌, ◌↔◌, ◌⊎◌, subst, Bool, true, false, ◌&&◌, some, List, [],
  ◌∷◌, get_elem?, arith, if◌then◌else◌, Option-cases, inl, inr, All, ◌==◌,
}
use server_demo.Fiber.State.{state_of}
use server_demo.Scheduler.Queue.{FiberAndThread, schedule, is_stopping, is_empty}
use server_demo.Scheduler.Run
use server_demo.Scheduler.Run.{
  Job, task, callback, idling, Phase, seeking, taken, inside, leaving, returned, counted, stopped,
  Worker, World, put_worker, count_down, submit, by_phase, sched_step, Act, submits, yields_ready,
  yields_hold, returns, throws, leave, idle_act, fiber_act, act_step, Step, loops, acts, outside,
  starts, spawns, start, spawn, new_world, auto_stops, stops, Reach, here, later, new_state,
}
use server_demo.Scheduler.Active.{
  Counts, Moves, Moves-Counts, holds, idles, total, weight-le-total, placed-Moves,
}
use server_demo.Scheduler.Counts.{seek-Moves, branch-Moves, settle-Moves}

module _ (i : ℕ) (w : World) where
  by_phase-Moves :
      (phase : Phase) (k : Worker) {w' : World}
      → by_phase phase i k w ≡ some w'
      → holds phase ≤ w.sched.active
      → idles phase ≤ w.idle
      → Moves w.workers w.sched.active w.idle i phase w'
  unfolding by_phase count_down
  by_phase-Moves seeking k h a d = seek-Moves w.workers w.sched.active w.idle i k w h refl refl refl
  by_phase-Moves (taken tickle found) k h a d =
      branch-Moves w.workers w.sched.active w.idle i tickle found k w h refl refl refl a
  by_phase-Moves (inside job p) k h a d = cc h
  by_phase-Moves (leaving job p) k h a d =
      placed-Moves w.workers w.sched.active w.idle i (leaving job p) _ w h refl refl refl
  by_phase-Moves (returned task p) k h a d =
      placed-Moves w.workers w.sched.active w.idle i (returned task p) _ (Run.sub_active w) h refl
        (omega arith) (omega arith)
  by_phase-Moves (returned callback p) k h a d =
      placed-Moves w.workers w.sched.active w.idle i (returned callback p) _ (Run.sub_active w) h
        refl (omega arith) (omega arith)
  by_phase-Moves (returned idling p) k h a d =
      placed-Moves w.workers w.sched.active w.idle i (returned idling p) _ (record w { idle = _ }) h
        refl (omega arith) (omega arith)
  by_phase-Moves (counted job p) k h a d = elim (Option-cases (state_of p w.fibers)) [
    | inl q ↦ let h' = rw (q, by_phase) at h in cc h'
    | inr (s, q) ↦
        settle-Moves w.workers w.sched.active w.idle i job s p k w (rw (q, by_phase) at h) refl refl
          refl
  ]
  by_phase-Moves stopped k h a d = cc h

  leave-Moves :
      (a : Act) (job : Job) (p : ℕ) (k : Worker) {w' : World}
      → leave a job p i k w ≡ some w'
      → Moves w.workers w.sched.active w.idle i (inside job p) w'
  unfolding leave
  leave-Moves a job p k h = elim (Option-cases (new_state a p w.fibers)) [
    | inl q ↦ let h' = rw (q, leave) at h in cc h'
    | inr (fs, q) ↦
        placed-Moves w.workers w.sched.active w.idle i (inside job p)
          (record k { phase = leaving job p }) (record w { fibers = fs }) (rw (q, leave) at h) refl
          refl refl
  ]

submit-Counts : (ft : FiberAndThread) (w : World) → Counts w → Counts (submit ft w)
unfolding submit schedule
submit-Counts ft w v = record { active_eq = v.active_eq; idle_eq = v.idle_eq }

start-Counts : (w : World) → Counts w → Counts (start w)
unfolding start
start-Counts w v = either w.sched.stopping
  where
    either :
        (b : Bool)
        → Counts (if b then record w { sched = record w.sched { stopping = false } } else w)
    either true = record { active_eq = v.active_eq; idle_eq = v.idle_eq }
    either false = v

total-snoc :
    (weight : Phase → ℕ) (ks : List Worker) (k : Worker)
    → total weight (ks ++ (k ∷ [])) ≡ total weight ks + weight k.phase
total-snoc weight [] k = omega arith
total-snoc weight (k₀ ∷ ks) k = omega (arith, total-snoc weight ks k)

spawn-Counts : (w : World) → Counts w → Counts (spawn w)
unfolding spawn
spawn-Counts w v = record {
  active_eq = v.active_eq ∙ sym (total-snoc holds w.workers _ ∙ omega arith);
  idle_eq = v.idle_eq ∙ sym (total-snoc idles w.workers _ ∙ omega arith);
}

fiber_act-Moves :
    (a : Act) (i : ℕ) (k : Worker) (w : World) {w' : World}
    → Counts w
    → (phase : Phase) → fiber_act a phase i k w ≡ some w'
    → Counts w' ⊎ Moves w.workers w.sched.active w.idle i phase w'
unfolding fiber_act idle_act
fiber_act-Moves a i k w v (inside idling p) h = inr (leave-Moves i w _ idling p k h)
fiber_act-Moves (submits ft) i k w v (inside task p) h =
    inl (subst Counts {x = submit ft w} (cc h) (submit-Counts ft w v))
fiber_act-Moves (submits ft) i k w v (inside callback p) h =
    inl (subst Counts {x = submit ft w} (cc h) (submit-Counts ft w v))
fiber_act-Moves a i k w v (inside task p) h = inr (leave-Moves i w a task p k h)
fiber_act-Moves a i k w v (inside callback p) h = inr (leave-Moves i w a callback p k h)
fiber_act-Moves a i k w v phase h = cc h

Step-Counts : {w w' : World} → Step w w' → Counts w → Counts w'
unfolding sched_step act_step
Step-Counts {w} (loops i h) v = elim (Option-cases (get_elem? w.workers i)) [
  | inl q ↦ let h' = rw (q, sched_step) at h in cc h'
  | inr (k, q) ↦ Moves-Counts k q v (
      by_phase-Moves i w k.phase k (rw (q, sched_step) at h)
        (omega (arith, v.active_eq, weight-le-total holds w.workers i k q))
        (omega (arith, v.idle_eq, weight-le-total idles w.workers i k q)))
]
Step-Counts {w} (acts i a h) v = elim (Option-cases (get_elem? w.workers i)) [
  | inl q ↦ let h' = rw (q, act_step) at h in cc h'
  | inr (k, q) ↦ elim (fiber_act-Moves a i k w v k.phase (rw (q, act_step) at h)) [
    | inl v' ↦ v'
    | inr m ↦ Moves-Counts k q v m
  ]
]
Step-Counts {w} (outside ft e) v = subst Counts (sym e) (submit-Counts ft w v)
Step-Counts {w} (starts e) v = subst Counts (sym e) (start-Counts w v)
Step-Counts {w} (spawns e) v = subst Counts (sym e) (spawn-Counts w v)
Step-Counts {w} (auto_stops e) v =
    subst Counts (sym e) (record { active_eq = v.active_eq; idle_eq = v.idle_eq })
Step-Counts {w} (stops e) v =
    subst Counts (sym e) (record { active_eq = v.active_eq; idle_eq = v.idle_eq })

pub Reach-Counts : {w : World} → Reach new_world w → Counts w
Reach-Counts here = record { active_eq = refl; idle_eq = refl }
Reach-Counts (later r s) = Step-Counts s (Reach-Counts r)

none-holds : (ks : List Worker) → (total holds ks ≡ 0) ↔ All (λ k. holds k.phase ≡ 0) ks
none-holds [] = (λ h. tt, λ h. refl)
none-holds (k ∷ ks) = (
  λ h. (omega arith, (none-holds ks).0 (omega arith)),
  λ h. omega (arith, h.0, (none-holds ks).1 h.1),
)

stopping_test :
    (a b : Bool) (ts : List FiberAndThread) (n : ℕ)
    → ((a && b && is_empty ts && (n == 0)) ≡ true) ↔ ((a ≡ true) × (b ≡ true) × (ts ≡ []) × (n ≡ 0))
stopping_test a b [] n = ground arith
stopping_test a b (t ∷ ts) n = ground arith

-- In every world that a scheduler can reach, whatever its threads, their fibers and the threads
-- outside do, `stopping()` is true exactly if both flags are set, the queue is empty, and no
-- worker is on a task from its search of the queue to the decrement behind the task's fiber.
pub is_stopping_iff :
    {w : World}
    → Reach new_world w
    → (is_stopping w.sched ≡ true) ↔ (
        (w.sched.auto_stop ≡ true)
        × (w.sched.stopping ≡ true)
        × (w.sched.fibers ≡ [])
        × All (λ k. holds k.phase ≡ 0) w.workers)
unfolding is_stopping
is_stopping_iff {w} r =
    let counts = Reach-Counts r in
    let test = stopping_test w.sched.auto_stop w.sched.stopping w.sched.fibers w.sched.active in
    let free = none-holds w.workers in
    (
      λ h. let (a, b, c, d) = test.0 h in (a, b, c, free.0 (sym counts.active_eq ∙ d)),
      λ h. test.1 (h.0, h.1, h.2, counts.active_eq ∙ free.1 h.3),
    )
