-- ===== src/Hook/DoIo.antt =====
-- The loop of do_io behind its first tests, with the condition timer and the event it waits for.
-- Other threads run timers, callbacks and reports between any two of its steps.
use server_demo.Common.{ℕ, zero, suc, ◌≡◌, Bool, true, false, Option, none, some, if◌then◌else◌}

-- The values of errno that do_io tells apart.
pub data Errno : Type 0 where
  eintr eagain etimedout : Errno
  other : ℕ → Errno

-- What the system's call gives: a value other than -1, or -1 and errno.
pub data Attempt : Type 0 where
  got : ℕ → Attempt
  failed : Errno → Attempt

-- What do_io comes back with: what its last call gave, the -1 of a failed addEvent, or ETIMEDOUT.
pub data Outcome : Type 0 where
  of_call : Attempt → Outcome
  no_event : Errno → Outcome
  timed_out : Outcome

-- In front of the call, in front of addEvent, held by YieldToHold, or back.
pub data Phase : Type 0 where
  calling adding holding : Phase
  back : Outcome → Phase

-- `timer`: it stands in the manager; `due`: how many callbacks of timers have been handed to the
-- scheduler and have not run; `cancelled`: the flag of tinfo; `registered`: the event is; `queued`:
-- the fiber is in the scheduler's queue.
pub record Io : Type 0 where
  pub phase : Phase
  pub timer : Bool
  pub due : ℕ
  pub cancelled : Bool
  pub registered : Bool
  pub queued : Bool

-- What happens next: the system's call gives a result; addEvent succeeds or fails; the timer runs
-- out; its callback runs; epoll reports the event; `close` of the descriptor cancels all its
-- events; the scheduler runs the fiber.
pub data Event : Type 0 where
  calls : Attempt → Event
  adds : Option Errno → Event
  expires fires reports closes resumes : Event

-- The result of the call decides. `timed` says whether there is a time-out.
unfoldable pub on_call : Bool → Attempt → Io → Io
on_call timed (got n) io = record io { phase = back (of_call (got n)) }
on_call timed (failed eintr) io = io
on_call timed (failed eagain) io = record io { phase = adding; timer = timed }
on_call timed (failed etimedout) io = record io { phase = back (of_call (failed etimedout)) }
on_call timed (failed (other n)) io = record io { phase = back (of_call (failed (other n))) }

unfoldable pub on_add : Option Errno → Io → Io
on_add none io = record io { phase = holding; registered = true }
on_add (some e) io = record io { phase = back (no_event e); timer = false }

-- The callback: a weak pointer to tinfo that has expired, or a flag that is set, ends it; else it
-- sets the flag and cancels the event, which schedules the fiber.
abbrev pub cancel_event : Io → Io
cancel_event io = if io.registered then record io { registered = false; queued = true } else io

unfoldable pub on_fire : Phase → Io → Io
on_fire (back r) io = io
on_fire calling io = if io.cancelled then io else cancel_event (record io { cancelled = true })
on_fire adding io = if io.cancelled then io else cancel_event (record io { cancelled = true })
on_fire holding io = if io.cancelled then io else cancel_event (record io { cancelled = true })

-- Behind YieldToHold.
unfoldable pub on_resume : Io → Io
on_resume io = record io {
  phase = if io.cancelled then back timed_out else calling;
  timer = false;
  queued = false;
}

abbrev pub if_phase : Phase → Phase → Option Io → Option Io
if_phase calling calling r = r
if_phase adding adding r = r
if_phase holding holding r = r
if_phase calling adding r = none
if_phase calling holding r = none
if_phase calling (back x) r = none
if_phase adding calling r = none
if_phase adding holding r = none
if_phase adding (back x) r = none
if_phase holding calling r = none
if_phase holding adding r = none
if_phase holding (back x) r = none
if_phase (back x) p r = none

abbrev pub less_due : ℕ → Io → Option Io
less_due zero io = none
less_due (suc n) io = some (on_fire io.phase (record io { due = n }))

unfoldable pub io_step : Bool → Event → Io → Option Io
io_step timed (calls a) io = if_phase calling io.phase (some (on_call timed a io))
io_step timed (adds e) io = if_phase adding io.phase (some (on_add e io))
io_step timed expires io =
    if io.timer then some (record io { timer = false; due = suc io.due }) else none
io_step timed fires io = less_due io.due io
io_step timed reports io =
    if io.registered then some (record io { registered = false; queued = true }) else none
io_step timed closes io =
    if io.registered then some (record io { registered = false; queued = true }) else none
io_step timed resumes io =
    if io.queued then if_phase holding io.phase (some (on_resume io)) else none

pub data Reach (timed : Bool) (io : Io) : Io → Type 0 where
  here : Reach timed io io
  later :
      {mid io' : Io} (e : Event)
      → Reach timed io mid
      → io_step timed e mid ≡ some io'
      → Reach timed io io'

abbrev pub new_io : Io
new_io = record {
  phase = calling;
  timer = false;
  due = 0;
  cancelled = false;
  registered = false;
  queued = false;
}
