-- ===== src/Timer/Calls.antt =====
-- `addTimer` and `cancel`: what they do to the set and to the timers.
use mathlib.Core.List.{Perm}
use server_demo.Common.{ℕ, ◌≡◌, ◌≢◌, refl, Bool, true, Option, none, some, ◌∷◌, arith}
use server_demo.Timer.Manager.{
  Timer, TimerManager, add64, update, add_timer_locked, add_timer, ok, drop_cb, cancel,
}
use server_demo.Timer.Order.{Absent, insert-perm}
use server_demo.Timer.Invariant.{
  IsValid, All_below-Absent, add_timer-IsValid, find_erase-drop_cb, taken_out, Sorted-drop_cb,
}
use server_demo.Timer.Lost.{Scheduled, find_erase-Scheduled}

-- The manager `c` has one timer more than `m`, at the address `a`, and is well-formed.
pub record Added (t : Timer) (m c : TimerManager) (a : ℕ) : Type 0 where
  pub timer : c.heap a ≡ t
  pub others : (x : ℕ) → x ≢ a → c.heap x ≡ m.heap x
  pub new : Absent a m.timers
  pub perm : Perm c.timers (a ∷ m.timers)
  pub valid : IsValid c

-- `addTimer` on a well-formed manager puts one new timer, due `ms` after now as a uint64_t, into
-- the set beside all that were there, leaves the other timers as they are, and keeps the manager
-- well-formed.
pub add_timer-Added :
    (now ms : ℕ) (cb : Option ℕ) (recurring : Bool) (m : TimerManager)
    → IsValid m
    → let r = add_timer now ms cb recurring m in
      Added (record { recurring = recurring; ms = ms; next = add64 now ms; cb = cb }) m r.0 r.1
unfolding add_timer add_timer_locked
add_timer-Added now ms cb recurring m v =
    let new = All_below-Absent m.next_address m.timers v.made in
    record {
      timer = ground arith;
      others = λ x k. ground (arith, k);
      new = new;
      perm = insert-perm _ m.next_address m.timers new;
      valid = add_timer-IsValid now ms cb recurring m v;
    }

-- The manager `c` has the timer `a` less than `m`, and is well-formed.
pub record Removed (a : ℕ) (m c : TimerManager) : Type 0 where
  pub empty : (c.heap a).cb ≡ none
  pub others : (x : ℕ) → x ≢ a → c.heap x ≡ m.heap x
  pub gone : Absent a c.timers
  pub perm : Perm m.timers (a ∷ c.timers)
  pub valid : IsValid c

-- `cancel` of a timer that has a callback and stands in the set of a well-formed manager returns
-- true, takes this one timer out of the set and clears its callback, leaves the other timers as
-- they are, and keeps the manager well-formed.
pub cancel-Removed :
    (a f : ℕ) (m : TimerManager)
    → IsValid m
    → (m.heap a).cb ≡ some f
    → Scheduled a m.timers
    → (c : TimerManager) × (cancel a m ≡ ok true c) × Removed a m c
unfolding cancel
cancel-Removed a f m v alive s =
    let (ys, there) = find_erase-Scheduled m.heap a m.timers s in
    let (erased, made, lt) = taken_out m a ys v there in
    (
      record m { heap = update m.heap a (drop_cb (m.heap a)); timers = ys },
      rw (alive, cancel, find_erase-drop_cb m.heap a m.timers, there) refl,
      record {
        empty = ground arith;
        others = λ x k. ground (arith, k);
        gone = erased.absent;
        perm = erased.perm;
        valid = record { sorted = Sorted-drop_cb m.heap a ys erased.sorted; made = made };
      },
    )
