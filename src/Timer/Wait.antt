-- ===== src/Timer/Wait.antt =====
-- `getNextTimer`: how long the caller may wait.
use server_demo.Common.{ℕ, ◌+◌, ◌≤◌, ◌<◌, ◌≡◌, ◌≢◌, refl, false, List, [], ◌∷◌, arith}
use server_demo.Timer.Manager.{Timer, TimerManager, no_timer, wait_for, get_next_timer}
use server_demo.Timer.Order.{Sorted}
use server_demo.Timer.Invariant.{IsValid}
use server_demo.Timer.Due.{due, none_due}

-- The wait `w` from the time `now` on is the right one for the timers `xs`.
pub record Waits (heap : ℕ → Timer) (xs : List ℕ) (now w : ℕ) : Type 0 where
  pub early : (t : ℕ) → now ≤ t → t < now + w → due heap t xs ≡ []
  pub late : xs ≢ [] → due heap (now + w) xs ≢ []
  pub idle : xs ≡ [] → w ≡ no_timer

wait_for-Waits :
    (heap : ℕ → Timer) (now : ℕ) (xs : List ℕ)
    → Sorted heap xs
    → Waits heap xs now (wait_for heap xs now)
wait_for-Waits heap now [] s = record {
  early = λ t h k. refl;
  late = λ k. absurd (k refl);
  idle = λ e. refl;
}
wait_for-Waits heap now (x ∷ xs) s = record {
  early = λ t h k. ground (arith, none_due heap t 0 x xs, s.0, h, k);
  late = λ k e. ground (arith, e);
  idle = λ e. cc;
}

-- On a well-formed manager, before the end of the wait that `getNextTimer` tells no timer is due,
-- at its end some timer is due if there is any, and without a timer it tells the largest
-- uint64_t; the call changes nothing but `m_tickled`, which it clears.
pub get_next_timer-Waits :
    (now : ℕ) (m : TimerManager)
    → IsValid m
    → Waits m.heap m.timers now (get_next_timer now m).0
      × ((get_next_timer now m).1 ≡ record m { tickled = false })
unfolding get_next_timer
get_next_timer-Waits now m v = (wait_for-Waits m.heap now m.timers v.sorted, refl)
