-- ===== src/Reactor/Wait.antt =====
-- The time-out that `idle` gives to epoll_wait.
use server_demo.Common.{
  ℕ, zero, suc, ◌-◌, ◌%◌, ◌^◌, ◌≤◌, ◌<◌, ◌≡◌, ◌≢◌, ◌∙◌, min, ◌==◌, arith, if◌then◌else◌,
}
use server_demo.Common.Int.{ℤ, pos, negsuc, to_int}
use server_demo.Timer.Manager.{no_timer}
use server_demo.Reactor.Round.{max_timeout, next_timeout, wait_time}

-- An int, cut off at 5 seconds.
abbrev pub capped : ℤ → ℤ
capped (pos n) = pos (min n max_timeout)
capped (negsuc n) = negsuc n

abbrev pub expected : ℕ → ℤ
expected next = if next == no_timer then pos max_timeout else capped (to_int next)

to_int_low : (n : ℕ) → n % 2 ^ 32 < 2 ^ 31 → to_int n ≡ pos (n % 2 ^ 32)
to_int_low n h = ground arith

to_int_high : (n : ℕ) → 2 ^ 31 ≤ n % 2 ^ 32 → to_int n ≡ negsuc (2 ^ 32 - 1 - n % 2 ^ 32)
to_int_high n h = ground arith

expected-next_timeout : (next : ℕ) → expected (next_timeout next) ≡ expected next
unfolding next_timeout
expected-next_timeout next = ground arith

-- However often it is interrupted, epoll_wait is given 5000 where there is no timer, and
-- otherwise the int of the low 32 bits of the time to wait, or 5000 if that is more.
pub wait_time-expected : (interrupts next : ℕ) → wait_time interrupts next ≡ expected next
unfolding wait_time next_timeout
wait_time-expected zero next = ground arith
wait_time-expected (suc interrupts) next =
    wait_time-expected interrupts (next_timeout next) ∙ expected-next_timeout next

-- With a timer whose time to wait has the bit 31 set, epoll_wait is given a negative time-out,
-- which blocks until there is an event, however often it is interrupted.
pub wait_time-negative :
    (interrupts next : ℕ)
    → next ≢ no_timer
    → 2 ^ 31 ≤ next % 2 ^ 32
    → wait_time interrupts next ≡ negsuc (2 ^ 32 - 1 - next % 2 ^ 32)
wait_time-negative interrupts next timed high =
    wait_time-expected interrupts next ∙ ground (arith, to_int_high next high)

-- A time to wait below 2^31 milliseconds is given to epoll_wait as it is, but at most 5000.
pub wait_time-min :
    (interrupts next : ℕ) → next < 2 ^ 31 → wait_time interrupts next ≡ pos (min next max_timeout)
wait_time-min interrupts next low = wait_time-expected interrupts next ∙ ground arith
