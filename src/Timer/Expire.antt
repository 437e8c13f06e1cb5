-- ===== src/Timer/Expire.antt =====
-- `listExpiredCb`: the callbacks it collects, and the timers and the set behind it.
use server_demo.Common.{ℕ, ◌≡◌, Option, List, map, All}
use server_demo.Timer.Manager.{Timer, TimerManager, rolled_over}
use server_demo.Timer.Order.{Absent}
use server_demo.Timer.Invariant.{IsValid}
use server_demo.Timer.Due.{gone}
use server_demo.Timer.Members.{is_in, in_after}
use server_demo.Timer.RunOut.{ran_out}

-- The timers that a call of `listExpiredCb` at `now` runs out.
abbrev pub expired_at : ℕ → TimerManager → List ℕ
expired_at now m = gone m.heap now (rolled_over now m.previouse_time) m.timers

-- What a call does: the callbacks of the expired timers, in the order of the set; each of them is
-- set again or has lost its callback, and no other timer has changed; of these timers the set then
-- has those that recur, and of the others those that it had.
pub record Expired (now : ℕ) (m : TimerManager) (cbs : List (Option ℕ)) (c : TimerManager)
    : Type 0 where
  pub callbacks : cbs ≡ map (λ a. (m.heap a).cb) (expired_at now m)
  pub each : All (λ a. c.heap a ≡ ran_out now (m.heap a)) (expired_at now m)
  pub others : (x : ℕ) → Absent x (expired_at now m) → c.heap x ≡ m.heap x
  pub set : (x : ℕ) → is_in x c.timers ≡ in_after m.heap (expired_at now m) m.timers x
  pub valid : IsValid c
