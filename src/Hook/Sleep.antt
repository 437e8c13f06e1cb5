-- ===== src/Hook/Sleep.antt =====
-- sleep, usleep and nanosleep: the time that each hands to addTimer, in milliseconds.
use server_demo.Common.{
  ℕ, ◌+◌, ◌*◌, ◌/◌, ◌%◌, ◌^◌, ◌-◌, ◌<◌, ◌≡◌, ltb, leb, ◌==◌, arith, if◌then◌else◌,
}

-- An unsigned int of seconds; the product is one of 32 bits.
unfoldable pub sleep_ms : ℕ → ℕ
sleep_ms seconds = seconds * 1000 % 2 ^ 32

unfoldable pub usleep_ms : ℕ → ℕ
usleep_ms usec = usec / 1000

-- tv_sec and tv_nsec are not negative here. The sum is kept in an int, which addTimer takes as a
-- uint64_t.
unfoldable pub nanosleep_ms : ℕ → ℕ → ℕ
nanosleep_ms sec nsec =
    let ms = (sec * 1000 + nsec / 1000 / 1000) % 2 ^ 32 in
    if ltb ms (2 ^ 31) then ms else ms + (2 ^ 64 - 2 ^ 32)

-- For an unsigned int of seconds, `sleep` waits as long as it is asked to exactly if that is at most
-- 4294967 seconds, `usleep` exactly if the microseconds are full milliseconds, and `nanosleep` waits
-- for at least 2^63 milliseconds exactly if the low 32 bits of its milliseconds have the bit 31 set.
pub slept_enough :
    (seconds usec sec nsec : ℕ)
    → seconds < 2 ^ 32
    → (leb (seconds * 1000) (sleep_ms seconds) ≡ leb seconds 4294967)
      × (leb usec (usleep_ms usec * 1000) ≡ (usec % 1000 == 0))
      × (leb (2 ^ 63) (nanosleep_ms sec nsec)
          ≡ leb (2 ^ 31) ((sec * 1000 + nsec / 1000000) % 2 ^ 32))
unfolding sleep_ms usleep_ms nanosleep_ms
slept_enough seconds usec sec nsec h = (ground (arith, h), ground arith, ground arith)
