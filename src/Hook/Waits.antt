-- ===== src/Hook/Waits.antt =====
-- What do_io leaves behind, and how it can come back.
use server_demo.Common.{ℕ, zero, suc, ◌≡◌, refl, subst, Bool, true, false, not, Option, none, some}
use server_demo.Hook.DoIo.{
  Errno, eintr, eagain, etimedout, other, Attempt, got, failed, Outcome, of_call, no_event,
  timed_out, Phase, calling, adding, holding, back, Io, Event, calls, adds, expires, fires, reports,
  closes, resumes, on_call, on_add, on_fire, on_resume, io_step, Reach, here, later, new_io,
}

-- A result of the call that ends the loop.
abbrev pub is_final : Attempt → Bool
is_final (got n) = true
is_final (failed eintr) = false
is_final (failed eagain) = false
is_final (failed etimedout) = true
is_final (failed (other n)) = true

-- What do_io comes back with: the last call's result is no interrupt and no EAGAIN, and at a time-out the flag is set.
abbrev pub Sound : Outcome → Io → Type 0
Sound (of_call a) io = is_final a ≡ true
Sound (no_event e) io = io.timer ≡ false
Sound timed_out io = io.cancelled ≡ true

-- While the fiber is held, the event is registered or the fiber is queued, and not both; at all
-- other times neither, and the timer stands in the manager only in front of addEvent and while the
-- fiber is held.
abbrev pub Settled : Phase → Io → Type 0
Settled calling io = (io.timer ≡ false) × (io.registered ≡ false) × (io.queued ≡ false)
Settled adding io = (io.registered ≡ false) × (io.queued ≡ false)
Settled holding io = io.queued ≡ not io.registered
Settled (back r) io =
    (io.timer ≡ false) × (io.registered ≡ false) × (io.queued ≡ false) × Sound r io

pub same : (P : Io → Type 0) {x y : Io} → some x ≡ some y → P x → P y
same P {x} {y} e p = subst P (cc e) p

-- An event leads from a settled state to settled ones.
abbrev Keeps : Bool → Event → Type 0
Keeps timed e =
    (p : Phase) (t : Bool) (d : ℕ) (c r q : Bool) (io' : Io)
    → Settled p
        (record { phase = p; timer = t; due = d; cancelled = c; registered = r; queued = q })
    → io_step timed e
        (record { phase = p; timer = t; due = d; cancelled = c; registered = r; queued = q })
      ≡ some io'
    → Settled io'.phase io'

calls-Settled : (timed : Bool) (a : Attempt) → Keeps timed (calls a)
unfolding io_step on_call
calls-Settled timed (got n) calling t d c r q io' g e =
    same (λ io. Settled io.phase io) e (g.0, g.1, g.2, refl)
calls-Settled timed (failed eintr) calling t d c r q io' g e = same (λ io. Settled io.phase io) e g
calls-Settled timed (failed eagain) calling t d c r q io' g e =
    same (λ io. Settled io.phase io) e (g.1, g.2)
calls-Settled timed (failed etimedout) calling t d c r q io' g e =
    same (λ io. Settled io.phase io) e (g.0, g.1, g.2, refl)
calls-Settled timed (failed (other n)) calling t d c r q io' g e =
    same (λ io. Settled io.phase io) e (g.0, g.1, g.2, refl)
calls-Settled timed a adding t d c r q io' g e = cc e
calls-Settled timed a holding t d c r q io' g e = cc e
calls-Settled timed a (back x) t d c r q io' g e = cc e

adds-Settled : (timed : Bool) (a : Option Errno) → Keeps timed (adds a)
unfolding io_step on_add
adds-Settled timed none adding t d c r q io' g e = same (λ io. Settled io.phase io) e g.1
adds-Settled timed (some n) adding t d c r q io' g e =
    same (λ io. Settled io.phase io) e (refl, g.0, g.1, refl)
adds-Settled timed a calling t d c r q io' g e = cc e
adds-Settled timed a holding t d c r q io' g e = cc e
adds-Settled timed a (back x) t d c r q io' g e = cc e

expires-Settled : (timed : Bool) → Keeps timed expires
unfolding io_step
expires-Settled timed p false d c r q io' g e = cc e
expires-Settled timed calling true d c r q io' g e = cc g.0
expires-Settled timed adding true d c r q io' g e = same (λ io. Settled io.phase io) e g
expires-Settled timed holding true d c r q io' g e = same (λ io. Settled io.phase io) e g
expires-Settled timed (back x) true d c r q io' g e = cc g.0

fires-Settled : (timed : Bool) → Keeps timed fires
unfolding io_step on_fire
fires-Settled timed p t zero c r q io' g e = cc e
fires-Settled timed calling t (suc d) true r q io' g e = same (λ io. Settled io.phase io) e g
fires-Settled timed calling t (suc d) false true q io' g e = cc g.1
fires-Settled timed calling t (suc d) false false q io' g e = same (λ io. Settled io.phase io) e g
fires-Settled timed adding t (suc d) true r q io' g e = same (λ io. Settled io.phase io) e g
fires-Settled timed adding t (suc d) false true q io' g e = cc g.0
fires-Settled timed adding t (suc d) false false q io' g e = same (λ io. Settled io.phase io) e g
fires-Settled timed holding t (suc d) true r q io' g e = same (λ io. Settled io.phase io) e g
fires-Settled timed holding t (suc d) false true q io' g e = same (λ io. Settled io.phase io) e refl
fires-Settled timed holding t (suc d) false false q io' g e = same (λ io. Settled io.phase io) e g
fires-Settled timed (back (of_call a)) t (suc d) c r q io' g e =
    same (λ io. Settled io.phase io) e g
fires-Settled timed (back (no_event a)) t (suc d) c r q io' g e =
    same (λ io. Settled io.phase io) e g
fires-Settled timed (back timed_out) t (suc d) c r q io' g e = same (λ io. Settled io.phase io) e g

reports-Settled : (timed : Bool) → Keeps timed reports
unfolding io_step
reports-Settled timed p t d c false q io' g e = cc e
reports-Settled timed calling t d c true q io' g e = cc g.1
reports-Settled timed adding t d c true q io' g e = cc g.0
reports-Settled timed holding t d c true q io' g e = same (λ io. Settled io.phase io) e refl
reports-Settled timed (back x) t d c true q io' g e = cc g.1

closes-Settled : (timed : Bool) → Keeps timed closes
unfolding io_step
closes-Settled timed p t d c false q io' g e = cc e
closes-Settled timed calling t d c true q io' g e = cc g.1
closes-Settled timed adding t d c true q io' g e = cc g.0
closes-Settled timed holding t d c true q io' g e = same (λ io. Settled io.phase io) e refl
closes-Settled timed (back x) t d c true q io' g e = cc g.1

resumes-Settled : (timed : Bool) → Keeps timed resumes
unfolding io_step on_resume
resumes-Settled timed p t d c r false io' g e = cc e
resumes-Settled timed calling t d c r true io' g e = cc
resumes-Settled timed adding t d c r true io' g e = cc
resumes-Settled timed (back x) t d c r true io' g e = cc
resumes-Settled timed holding t d c true true io' g e = cc g
resumes-Settled timed holding t d true false true io' g e =
    same (λ io. Settled io.phase io) e (refl, refl, refl, refl)
resumes-Settled timed holding t d false false true io' g e =
    same (λ io. Settled io.phase io) e (refl, refl, refl)

io_step-Settled :
    (timed : Bool) (e : Event) (io io' : Io)
    → Settled io.phase io
    → io_step timed e io ≡ some io'
    → Settled io'.phase io'
io_step-Settled timed (calls a) io io' g h =
    calls-Settled timed a io.phase io.timer io.due io.cancelled io.registered io.queued io' g h
io_step-Settled timed (adds a) io io' g h =
    adds-Settled timed a io.phase io.timer io.due io.cancelled io.registered io.queued io' g h
io_step-Settled timed expires io io' g h =
    expires-Settled timed io.phase io.timer io.due io.cancelled io.registered io.queued io' g h
io_step-Settled timed fires io io' g h =
    fires-Settled timed io.phase io.timer io.due io.cancelled io.registered io.queued io' g h
io_step-Settled timed reports io io' g h =
    reports-Settled timed io.phase io.timer io.due io.cancelled io.registered io.queued io' g h
io_step-Settled timed closes io io' g h =
    closes-Settled timed io.phase io.timer io.due io.cancelled io.registered io.queued io' g h
io_step-Settled timed resumes io io' g h =
    resumes-Settled timed io.phase io.timer io.due io.cancelled io.registered io.queued io' g h

-- However calls, timers, callbacks and reports interleave, while `do_io` holds its fiber either
-- the event is registered or the fiber is queued, and not both; at all other times neither, and
-- there is no timer in front of the call or once it is back. It comes back with no EINTR and no
-- EAGAIN of the call, and with its own ETIMEDOUT only if a callback has set the flag.
pub Reach-Settled : (timed : Bool) {io : Io} → Reach timed new_io io → Settled io.phase io
Reach-Settled timed here = (refl, refl, refl)
Reach-Settled timed (later {mid} {io'} e r h) =
    io_step-Settled timed e mid io' (Reach-Settled timed r) h
