-- ===== src/Scheduler/Drain.antt =====
-- A worker of `run` and the callbacks in its queue: it calls them one after the other, on one and
-- the same cb_fiber.
use server_demo.Common.{
  ℕ, ◌+◌, ◌≡◌, refl, subst, true, ◌||◌, Option, none, some, List, [], ◌∷◌, map, arith,
}
use server_demo.Fiber.State.{State, init, exec, term, is_over, is_init}
use server_demo.Scheduler.Queue.{FiberAndThread}
use server_demo.Scheduler.Run.{callback, seeking, inside, leaving, World, Step, Reach, here, later}
use server_demo.Scheduler.Stages.{
  of_cb, Stage, seeks, enters, ends, swaps_out, counts_down, settles,
}

-- The worker `i` calls the callbacks on its fiber `c`, one after the other, and each returns.
pub data Calls (i c : ℕ) : List ℕ → World → World → Type 0 where
  done : {w : World} → Calls i c [] w w
  calls :
      {cb : ℕ} {cbs : List ℕ} {w u v w' : World} (ts : List FiberAndThread) (active : ℕ)
      → Reach w u
      → Stage i c (inside callback c) exec (some cb) ts active u
      → Step u v
      → Stage i c (leaving callback c) term none ts active v
      → (x : World) → Reach v x
      → Calls i c cbs x w'
      → Calls i c (cb ∷ cbs) w w'

-- A worker at the top of the loop, whose cb_fiber can be reset and whose queue holds callbacks,
-- reaches a world in which it has called them all, in their order, each until it returned; the
-- queue is empty then, the counter is as before, and the worker is at the top of the loop again.
pub drains :
    (i c : ℕ) (cbs : List ℕ) (s : State) (old : Option ℕ) (active : ℕ) (w : World)
    → (is_over s || is_init s) ≡ true
    → Stage i c seeking s old (map of_cb cbs) active w
    → (w' : World) × Calls i c cbs w w'
      × (s' : State) × (old' : Option ℕ) × Stage i c seeking s' old' [] active w'
drains i c [] s old active w can g = (w, done, s, old, g)
drains i c (cb ∷ cbs) s old active w can g =
    let (w₁, m₁, g₁) = seeks i c cb g in
    let (w₂, m₂, g₂) = enters i c cb can g₁ in
    let (w₃, m₃, g₃) = ends i c g₂ in
    let (w₄, m₄, g₄) = swaps_out i c g₃ in
    let (w₅, m₅, g₅) = counts_down i c g₄ in
    let (w₆, m₆, g₆) = settles i c g₅ in
    let (w', rest, s', old', g') =
      drains i c cbs init none active w₆ refl
        (subst (λ n. Stage i c seeking init none (map of_cb cbs) n w₆) (omega arith) g₆) in
    (
      w',
      calls (map of_cb cbs) (active + 1) (later (later here m₁) m₂) g₂ m₃ g₃ w₆
          (later (later (later here m₄) m₅) m₆) rest,
      s',
      old',
      g',
    )
