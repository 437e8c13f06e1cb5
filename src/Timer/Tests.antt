-- ===== src/Timer/Tests.antt =====
-- Runs of the timer manager on two timers, and its theorems at concrete inputs.
use server_demo.Common.{ℕ, zero, suc, ◌≡◌, refl, true, false, some, [], ◌∷◌, arith}
use server_demo.Timer.Manager.{
  Timer, TimerManager, insert, ok, refresh, reset, get_next_timer, lower_bound, skip_equal,
  split_expired, run_out, check_expired, list_expired_cb,
}
use server_demo.Timer.Invariant.{IsValid, Returns, reset-IsValid}
use server_demo.Timer.Wait.{Waits, get_next_timer-Waits}
use server_demo.Timer.Lost.{Lost, refresh-Lost}

-- A timer at 0 that is due at 50 and recurs, and one at 1 that is due at 70.
abbrev memory : ℕ → Timer
memory zero = record { recurring = true; ms = 50; next = 50; cb = some 7 }
memory (suc n) = record { recurring = false; ms = 70; next = 70; cb = some 8 }

abbrev two_timers : TimerManager
two_timers = record {
  heap = memory;
  timers = 0 ∷ 1 ∷ [];
  tickled = false;
  previouse_time = 0;
  next_address = 2;
  woken = 0;
}

two_timers-IsValid : IsValid two_timers
two_timers-IsValid = record { sorted = ((refl, tt), (tt, tt)); made = omega arith }

-- At 60 the first timer runs out and goes behind the second.
run_at_60 :
    ((list_expired_cb 60 9 two_timers).0 ≡ some 7 ∷ [])
    × ((list_expired_cb 60 9 two_timers).1.timers ≡ 1 ∷ 0 ∷ [])
unfolding list_expired_cb check_expired split_expired lower_bound skip_equal run_out insert
run_at_60 = (refl, refl)

get_next_timer-Waits_example :
    Waits memory (0 ∷ 1 ∷ []) 20 (get_next_timer 20 two_timers).0
    × ((get_next_timer 20 two_timers).1 ≡ record two_timers { tickled = false })
get_next_timer-Waits_example = get_next_timer-Waits 20 two_timers two_timers-IsValid

reset-IsValid_example : Returns (reset 20 30 true 1 two_timers) IsValid
reset-IsValid_example = reset-IsValid 20 30 true 1 two_timers two_timers-IsValid

refresh-Lost_example : (c : TimerManager) × (refresh 20 1 two_timers ≡ ok true c) × Lost 1 c
refresh-Lost_example = refresh-Lost 20 1 8 two_timers refl (λ h. h.1.0 refl)
