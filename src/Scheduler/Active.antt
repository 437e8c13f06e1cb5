-- ===== src/Scheduler/Active.antt =====
-- The counters m_activeThreadCount and m_idleThreadCount over the steps of `run`.
use server_demo.Common.{
  ℕ, zero, suc, ◌+◌, ◌≤◌, ◌≡◌, subst, ap, some, List, [], ◌∷◌, get_elem?, set, arith, Option-cases,
  inl, inr,
}
use server_demo.Fiber.State.{hold, set_state, swap_in}
use server_demo.Scheduler.Run.{
  Job, task, callback, idling, Phase, taken, inside, leaving, returned, Worker, World, put_worker,
  enter, put_on_hold,
}

-- 1 for a task that the worker has taken and whose fiber has not come back; 1 for a worker that
-- is in its idle fiber.
abbrev pub job_weight : Job → ℕ
job_weight task = 1
job_weight callback = 1
job_weight idling = 0

abbrev pub idle_weight : Job → ℕ
idle_weight task = 0
idle_weight callback = 0
idle_weight idling = 1

abbrev pub holds : Phase → ℕ
holds (taken tickle (some ft)) = 1
holds (inside job p) = job_weight job
holds (leaving job p) = job_weight job
holds (returned job p) = job_weight job
holds phase = 0

abbrev pub idles : Phase → ℕ
idles (inside job p) = idle_weight job
idles (leaving job p) = idle_weight job
idles (returned job p) = idle_weight job
idles phase = 0

abbrev pub total : (Phase → ℕ) → List Worker → ℕ
total weight [] = 0
total weight (k ∷ ks) = weight k.phase + total weight ks

-- The counters say how many workers hold a task, and how many idle.
pub record Counts (w : World) : Type 0 where
  pub active_eq : w.sched.active ≡ total holds w.workers
  pub idle_eq : w.idle ≡ total idles w.workers

total-set :
    (weight : Phase → ℕ) (ks : List Worker) (i : ℕ) (k k' : Worker)
    → get_elem? ks i ≡ some k
    → total weight (set ks i k') + weight k.phase ≡ total weight ks + weight k'.phase
total-set weight [] i k k' h = cc
total-set weight (k₀ ∷ ks) zero k k' h =
    let e : k₀ ≡ k = cc h in omega (arith, ap (λ (k : Worker). weight k.phase) e)
total-set weight (k₀ ∷ ks) (suc i) k k' h = omega (arith, total-set weight ks i k k' h)

-- What a step changes: the worker that makes it, and the counters by what it holds.
pub record Moves (ws : List Worker) (active idle i : ℕ) (phase : Phase) (w' : World) : Type 0 where
  pub worker : Worker
  pub placed : w'.workers ≡ set ws i worker
  pub active_moves : w'.sched.active + holds phase ≡ active + holds worker.phase
  pub idle_moves : w'.idle + idles phase ≡ idle + idles worker.phase

pub Moves-Counts :
    {w w' : World} {i : ℕ} (k : Worker)
    → get_elem? w.workers i ≡ some k
    → Counts w
    → Moves w.workers w.sched.active w.idle i k.phase w'
    → Counts w'
Moves-Counts {w} {w'} {i} k at v m = record {
  active_eq = omega (
    arith,
    m.active_moves,
    v.active_eq,
    ap (total holds) m.placed,
    total-set holds w.workers i k m.worker at,
  );
  idle_eq = omega (
    arith,
    m.idle_moves,
    v.idle_eq,
    ap (total idles) m.placed,
    total-set idles w.workers i k m.worker at,
  );
}

pub weight-le-total :
    (weight : Phase → ℕ) (ks : List Worker) (i : ℕ) (k : Worker)
    → get_elem? ks i ≡ some k
    → weight k.phase ≤ total weight ks
weight-le-total weight [] i k h = cc
weight-le-total weight (k₀ ∷ ks) zero k h =
    let e : k₀ ≡ k = cc h in omega (arith, ap (λ (k : Worker). weight k.phase) e)
weight-le-total weight (k₀ ∷ ks) (suc i) k h = omega (arith, weight-le-total weight ks i k h)

-- The parts of a step, for a worker that comes from `phase`.
module _ (ws : List Worker) (active idle i : ℕ) (phase : Phase) where
  pub placed-Moves :
      (k : Worker) (v : World) {w' : World}
      → some (put_worker i k v) ≡ some w'
      → v.workers ≡ ws
      → v.sched.active + holds phase ≡ active + holds k.phase
      → v.idle + idles phase ≡ idle + idles k.phase
      → Moves ws active idle i phase w'
  placed-Moves k v h e a d =
      subst (Moves ws active idle i phase) {x = put_worker i k v} (cc h)
        (record { worker = k; placed = ap (λ ks. set ks i k) e; active_moves = a; idle_moves = d })

  pub enter-Moves :
      (job : Job) (p : ℕ) (k : Worker) (w : World) {w' : World}
      → enter job p i k w ≡ some w'
      → w.workers ≡ ws
      → w.sched.active + holds phase ≡ active + job_weight job
      → w.idle + idles phase ≡ idle + idle_weight job
      → Moves ws active idle i phase w'
  unfolding enter
  enter-Moves job p k w h e a d = elim (Option-cases (swap_in p k.thread w.fibers)) [
    | inl q ↦ let h' = rw (q, enter) at h in cc h'
    | inr ((t, fs), q) ↦ placed-Moves _ _ (rw (q, enter) at h) e a d
  ]

  pub put_on_hold-Moves :
      (p : ℕ) (k : Worker) (w : World) {w' : World}
      → put_on_hold p i k w ≡ some w'
      → w.workers ≡ ws
      → w.sched.active + holds phase ≡ active
      → w.idle + idles phase ≡ idle
      → Moves ws active idle i phase w'
  unfolding put_on_hold
  put_on_hold-Moves p k w h e a d = elim (Option-cases (set_state p hold w.fibers)) [
    | inl q ↦ let h' = rw (q, put_on_hold) at h in cc h'
    | inr (fs, q) ↦ placed-Moves _ _ (rw (q, put_on_hold) at h) e (omega arith) (omega arith)
  ]
