-- ===== src/Reactor/HandOver.antt =====
-- The tasks of the events that are reported, on their way to the schedulers.
use server_demo.Common.{
  ℕ, ◌+◌, ◌≡◌, refl, sym, ap, ◌∙◌, Bool, true, false, not, ◌&&◌, List, [], ◌∷◌, ◌++◌, append-nil,
  append_assoc, ◌==◌, ltb, arith, if◌then◌else◌, Bool-cases, inl, inr,
}
use server_demo.Scheduler.Queue.{
  FiberAndThread, Scheduler, schedule, schedule_no_lock, is_empty, has_task,
}
use server_demo.IoManager.State.{Task, callback, fiber}
use server_demo.Reactor.Round.{Reactor, tickle, of_task, hand_over, hand_all}

-- The tasks for the scheduler `id`, as it queues them, and those for others.
abbrev pub own_tasks : ℕ → List (ℕ × Task) → List FiberAndThread
own_tasks id [] = []
own_tasks id ((s, t) ∷ ts) = if s == id then of_task t ∷ own_tasks id ts else own_tasks id ts

abbrev pub other_tasks : ℕ → List (ℕ × Task) → List (ℕ × Task)
other_tasks id [] = []
other_tasks id ((s, t) ∷ ts) = if s == id then other_tasks id ts else (s, t) ∷ other_tasks id ts

-- Whether tasks that are queued behind `fibers` write into the pipe: there was nothing to do, there
-- is now, and no thread idles.
abbrev pub woken_for : List FiberAndThread → List FiberAndThread → ℕ → ℕ
woken_for own fibers idle =
    if is_empty fibers && not (is_empty own) then (if ltb 0 idle then 0 else 1) else 0

-- The queue with the task behind it, which wakes a thread.
abbrev queued : Task → Reactor → Reactor
queued t r = record r {
  sched = record r.sched { fibers = r.sched.fibers ++ (of_task t ∷ []) };
  wakes = r.wakes + woken_for (of_task t ∷ []) r.sched.fibers r.idle;
}

has_task-of_task : (t : Task) → has_task (of_task t) ≡ true
has_task-of_task (callback f) = refl
has_task-of_task (fiber f) = refl

schedule-of_task :
    (t : Task) (s : Scheduler)
    → schedule (of_task t) s
      ≡ (is_empty s.fibers, record s { fibers = s.fibers ++ (of_task t ∷ []) })
unfolding schedule schedule_no_lock
schedule-of_task (callback f) s = refl
schedule-of_task (fiber f) s = refl

hand_over-own :
    (s : ℕ) (t : Task) (r : Reactor) → (s == r.id) ≡ true → hand_over (s, t) r ≡ queued t r
unfolding hand_over
hand_over-own s t r mine =
    ap (λ b. if b then after (schedule (of_task t) r.sched) else elsewhere) mine
    ∙ ap after (schedule-of_task t r.sched)
    ∙ written (is_empty r.sched.fibers)
        (record r.sched { fibers = r.sched.fibers ++ (of_task t ∷ []) })
  where
    elsewhere : Reactor
    elsewhere = record r {
      events = record r.events { scheduled = r.events.scheduled ++ ((s, t) ∷ []) };
    }

    after : Bool × Scheduler → Reactor
    after p = if p.0 then tickle (record r { sched = p.1 }) else record r { sched = p.1 }

    written :
        (b : Bool) (q : Scheduler)
        → after (b, q) ≡ record r {
          sched = q;
          wakes = r.wakes + (if b && true then (if ltb 0 r.idle then 0 else 1) else 0);
        }
    written true q = elim (Bool-cases (ltb 0 r.idle)) [
      | inl e ↦ rw (e, tickle) (ap (λ w. record r { sched = q; wakes = w }) (omega arith))
      | inr e ↦ rw (e, tickle) refl
    ]
    written false q = ap (λ w. record r { sched = q; wakes = w }) (omega arith)

abbrev passed_on : ℕ → Task → Reactor → Reactor
passed_on s t r = record r {
  events = record r.events { scheduled = r.events.scheduled ++ ((s, t) ∷ []) };
}

hand_over-other :
    (s : ℕ) (t : Task) (r : Reactor) → (s == r.id) ≡ false → hand_over (s, t) r ≡ passed_on s t r
unfolding hand_over
hand_over-other s t r other =
    ap
      (λ b.
        if b
        then if (schedule (of_task t) r.sched).0
          then tickle (record r { sched = (schedule (of_task t) r.sched).1 })
          else record r { sched = (schedule (of_task t) r.sched).1 }
        else passed_on s t r)
      other

-- What handing over changes.
abbrev changed : Reactor → List FiberAndThread → List (ℕ × Task) → ℕ → Reactor
changed r fibers scheduled wakes = record r {
  sched = record r.sched { fibers = fibers };
  events = record r.events { scheduled = scheduled };
  wakes = wakes;
}

changed-cong :
    (r : Reactor) {fs fs' : List FiberAndThread} {ts ts' : List (ℕ × Task)} {w w' : ℕ}
    → fs ≡ fs'
    → ts ≡ ts'
    → w ≡ w'
    → changed r fs ts w ≡ changed r fs' ts' w'
changed-cong r e f g = cc (e, f, g)

-- All tasks, in their order.
abbrev pub handed : List (ℕ × Task) → Reactor → Reactor
handed ts r =
    changed r (r.sched.fibers ++ own_tasks r.id ts) (r.events.scheduled ++ other_tasks r.id ts)
      (r.wakes + woken_for (own_tasks r.id ts) r.sched.fibers r.idle)

woken_for-nil : (fibers : List FiberAndThread) (idle : ℕ) → woken_for [] fibers idle ≡ 0
woken_for-nil [] idle = refl
woken_for-nil (f ∷ fs) idle = refl

-- Only the first task of several finds nothing to do.
woken_for-cons :
    (t : FiberAndThread) (own fibers : List FiberAndThread) (idle : ℕ)
    → woken_for (t ∷ []) fibers idle + woken_for own (fibers ++ (t ∷ [])) idle
      ≡ woken_for (t ∷ own) fibers idle
woken_for-cons t own [] idle = omega arith
woken_for-cons t own (f ∷ fs) idle = refl

pub hand_all_lem : (ts : List (ℕ × Task)) (r : Reactor) → hand_all ts r ≡ handed ts r
unfolding hand_all
hand_all_lem [] r =
    changed-cong r (sym (append-nil r.sched.fibers)) (sym (append-nil r.events.scheduled))
      (omega (arith, woken_for-nil r.sched.fibers r.idle))
hand_all_lem ((s, t) ∷ ts) r =
    let own = own_tasks r.id ts in
    let others = other_tasks r.id ts in
    let own_at : Bool → List FiberAndThread = λ b. if b then of_task t ∷ own else own in
    let others_at : Bool → List (ℕ × Task) = λ b. if b then others else (s, t) ∷ others in
    elim (Bool-cases (s == r.id)) [
      | inl mine ↦
          ap (hand_all ts) (hand_over-own s t r mine)
          ∙ hand_all_lem ts (queued t r)
          ∙ changed-cong r
              (append_assoc r.sched.fibers (of_task t ∷ []) own
                ∙ ap (λ b. r.sched.fibers ++ own_at b) (sym mine))
              (ap (λ b. r.events.scheduled ++ others_at b) (sym mine))
              (omega (arith, woken_for-cons (of_task t) own r.sched.fibers r.idle)
                ∙ ap (λ b. r.wakes + woken_for (own_at b) r.sched.fibers r.idle) (sym mine))
      | inr other ↦
          ap (hand_all ts) (hand_over-other s t r other)
          ∙ hand_all_lem ts (passed_on s t r)
          ∙ changed-cong r (ap (λ b. r.sched.fibers ++ own_at b) (sym other))
              (append_assoc r.events.scheduled ((s, t) ∷ []) others
                ∙ ap (λ b. r.events.scheduled ++ others_at b) (sym other))
              (ap (λ b. r.wakes + woken_for (own_at b) r.sched.fibers r.idle) (sym other))
    ]
