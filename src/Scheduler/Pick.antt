-- ===== src/Scheduler/Pick.antt =====
-- Which task a thread takes, and what `schedule` puts into the queue.
use server_demo.Common.{
  ℕ, ◌≡◌, inl, inr, refl, sym, ap, ◌∙◌, subst, Bool, true, false, not, ◌&&◌, ◌||◌, none, some, List,
  [], ◌∷◌, ◌++◌, append_assoc, append-nil, All, arith, if◌then◌else◌, Bool-cases,
}
use server_demo.Scheduler.Queue.{
  FiberAndThread, Scheduler, is_empty, has_task, schedule_no_lock, schedule_loop, schedule_all,
  elsewhere, executing, Pick, picked, behind, pick,
}

-- Every entry of the queue has something to run.
abbrev pub IsValid : List FiberAndThread → Type 0
IsValid ts = All (λ t. has_task t ≡ true) ts

-- Whether the thread `me` may take a task now.
abbrev pub runnable : ℕ → (ℕ → Bool) → FiberAndThread → Bool
runnable me exec t = not (elsewhere me t) && not (executing exec t)

-- Whether one of the tasks is meant for another thread.
abbrev pub some_elsewhere : ℕ → List FiberAndThread → Bool
some_elsewhere me [] = false
some_elsewhere me (t ∷ ts) = elsewhere me t || some_elsewhere me ts

-- What the loop comes to on the queue `ts`: the tasks `skipped` are those it went past.
pub data Found (me : ℕ) (exec : ℕ → Bool) (ts : List FiberAndThread) : Pick → Type 0 where
  takes :
      (skipped rest : List FiberAndThread) (t : FiberAndThread)
      → All (λ u. runnable me exec u ≡ false) skipped
      → runnable me exec t ≡ true
      → ts ≡ skipped ++ (t ∷ rest)
      → (p : Pick) → p ≡ picked (some_elsewhere me skipped) (some t) (skipped ++ rest)
      → Found me exec ts p
  finds_none :
      All (λ u. runnable me exec u ≡ false) ts
      → (p : Pick) → p ≡ picked (some_elsewhere me ts) none ts
      → Found me exec ts p

further :
    (me : ℕ) (exec : ℕ → Bool) (t : FiberAndThread) (ts : List FiberAndThread) (p : Pick)
    → runnable me exec t ≡ false
    → Found me exec ts p
    → Found me exec (t ∷ ts) (behind t (elsewhere me t) p)
further me exec t ts p skip (takes skipped rest u before runs split q e) =
    takes (t ∷ skipped) rest u (skip, before) runs (ap (◌∷◌ t) split) (behind t (elsewhere me t) q)
      (ap (behind t (elsewhere me t)) e)
further me exec t ts p skip (finds_none before q e) =
    finds_none (skip, before) (behind t (elsewhere me t) q) (ap (behind t (elsewhere me t)) e)

-- On a queue whose entries all have something to run, the search of `run` takes the first task
-- that this thread may run now (none meant for another thread, no fiber that is being executed),
-- leaves all others in their order, and asks to tickle exactly if it went past a task for another
-- thread; if there is no task it may run it takes none and leaves the queue as it is.
pub pick-Found :
    (me : ℕ) (exec : ℕ → Bool) (ts : List FiberAndThread)
    → IsValid ts
    → Found me exec ts (pick me exec ts)
unfolding pick
pick-Found me exec [] v = finds_none tt _ refl
pick-Found me exec (t ∷ ts) v = elim (Bool-cases (elsewhere me t)) [
  | inl other ↦
      subst (Found me exec (t ∷ ts)) (ground (arith, other))
        (further me exec t ts (pick me exec ts) (ground (arith, other)) (pick-Found me exec ts v.1))
  | inr here ↦ elim (Bool-cases (executing exec t)) [
    | inl busy ↦ subst (Found me exec (t ∷ ts)) (ground (arith, here, busy, v.0)) (
        further me exec t ts (pick me exec ts) (ground (arith, here, busy))
          (pick-Found me exec ts v.1))
    | inr free ↦
        takes [] ts t tt (ground (arith, here, free)) refl _ (ground (arith, here, free, v.0))
  ]
]

-- The tasks of a batch that have something to run.
abbrev pub real_tasks : List FiberAndThread → List FiberAndThread
real_tasks [] = []
real_tasks (t ∷ ts) = if has_task t then t ∷ real_tasks ts else real_tasks ts

is_empty-snoc : (ts : List FiberAndThread) (t : FiberAndThread) → is_empty (ts ++ (t ∷ [])) ≡ false
is_empty-snoc [] t = refl
is_empty-snoc (u ∷ ts) t = refl

schedule_loop_lem :
    (ts : List FiberAndThread) (need : Bool) (fibers : List FiberAndThread)
    → ((schedule_loop ts need fibers).0 ≡ (need || (is_empty fibers && not (is_empty ts))))
      × ((schedule_loop ts need fibers).1 ≡ fibers ++ real_tasks ts)
unfolding schedule_loop schedule_no_lock
schedule_loop_lem [] need fibers = (ground arith, sym (append-nil fibers))
schedule_loop_lem (t ∷ ts) need fibers = elim (Bool-cases (has_task t)) [
  | inl real ↦
      let (tickles, queue) = schedule_loop_lem ts (is_empty fibers || need) (fibers ++ (t ∷ [])) in
      let step =
        ap
          (λ b.
            schedule_loop ts (is_empty fibers || need) (if b then fibers ++ (t ∷ []) else fibers))
          real in
      (
        ap (λ (r : Bool × List FiberAndThread). r.0) step
            ∙ tickles
            ∙ ground (arith, is_empty-snoc fibers t),
        ap (λ (r : Bool × List FiberAndThread). r.1) step
            ∙ queue
            ∙ append_assoc fibers (t ∷ []) (real_tasks ts)
            ∙ ap (λ b. fibers ++ (if b then t ∷ real_tasks ts else real_tasks ts)) (sym real),
      )
  | inr null ↦
      let (tickles, queue) = schedule_loop_lem ts (is_empty fibers || need) fibers in
      let step =
        ap
          (λ b.
            schedule_loop ts (is_empty fibers || need) (if b then fibers ++ (t ∷ []) else fibers))
          null in
      (
        ap (λ (r : Bool × List FiberAndThread). r.0) step ∙ tickles ∙ ground arith,
        ap (λ (r : Bool × List FiberAndThread). r.1) step
            ∙ queue
            ∙ ap (λ b. fibers ++ (if b then t ∷ real_tasks ts else real_tasks ts)) (sym null),
      )
]

-- `schedule` of a batch appends exactly the tasks that have something to run, in order, changes
-- nothing else, and tickles exactly if the queue was empty and the batch is not.
pub schedule_all-queue :
    (ts : List FiberAndThread) (s : Scheduler)
    → ((schedule_all ts s).0 ≡ (is_empty s.fibers && not (is_empty ts)))
      × ((schedule_all ts s).1 ≡ record s { fibers = s.fibers ++ real_tasks ts })
unfolding schedule_all
schedule_all-queue ts s =
    let (tickles, queue) = schedule_loop_lem ts false s.fibers in
    (tickles, ap (λ q. record s { fibers = q }) queue)
