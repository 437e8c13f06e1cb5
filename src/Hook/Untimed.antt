-- ===== src/Hook/Untimed.antt =====
-- How do_io comes back without a time-out.
use server_demo.Common.{
  ◌≡◌, refl, sym, ap, ◌∙◌, subst, Bool, true, false, none, some, List, [], ◌∷◌,
}
use server_demo.Hook.DoIo.{
  Attempt, eintr, eagain, etimedout, other, got, failed, Outcome, of_call, no_event, timed_out,
  Phase, calling, adding, holding, back, Io, Event, calls, adds, expires, fires, reports, closes,
  resumes, on_call, on_add, on_resume, io_step, Reach, here, later, new_io,
}
use server_demo.Hook.Waits.{Settled, Sound, Reach-Settled, same}
use server_demo.Hook.Timeouts.{run_events, run_events-cons, run_events-Reach}

-- Without a time-out there is no timer, and nothing sets the flag.
pub record Untimed (io : Io) : Type 0 where
  pub timer : io.timer ≡ false
  pub due : io.due ≡ 0
  pub cancelled : io.cancelled ≡ false

abbrev untimed_io : Phase → Bool → Bool → Io
untimed_io p r q = record {
  phase = p;
  timer = false;
  due = 0;
  cancelled = false;
  registered = r;
  queued = q;
}

untimed_io-Untimed : (p : Phase) (r q : Bool) → Untimed (untimed_io p r q)
untimed_io-Untimed p r q = record { timer = refl; due = refl; cancelled = refl }

Untimed-step :
    (e : Event) (p : Phase) (r q : Bool) (io' : Io)
    → io_step false e (untimed_io p r q) ≡ some io'
    → Untimed io'
unfolding io_step on_call on_add on_resume
Untimed-step (calls (got n)) calling r q io' h = same Untimed h (untimed_io-Untimed _ r q)
Untimed-step (calls (failed eintr)) calling r q io' h = same Untimed h (untimed_io-Untimed _ r q)
Untimed-step (calls (failed eagain)) calling r q io' h = same Untimed h (untimed_io-Untimed _ r q)
Untimed-step (calls (failed etimedout)) calling r q io' h =
    same Untimed h (untimed_io-Untimed _ r q)
Untimed-step (calls (failed (other n))) calling r q io' h =
    same Untimed h (untimed_io-Untimed _ r q)
Untimed-step (calls a) adding r q io' h = cc h
Untimed-step (calls a) holding r q io' h = cc h
Untimed-step (calls a) (back x) r q io' h = cc h
Untimed-step (adds none) adding r q io' h = same Untimed h (untimed_io-Untimed _ _ q)
Untimed-step (adds (some a)) adding r q io' h = same Untimed h (untimed_io-Untimed _ r q)
Untimed-step (adds a) calling r q io' h = cc h
Untimed-step (adds a) holding r q io' h = cc h
Untimed-step (adds a) (back x) r q io' h = cc h
Untimed-step expires p r q io' h = cc h
Untimed-step fires p r q io' h = cc h
Untimed-step reports p true q io' h = same Untimed h (untimed_io-Untimed p false true)
Untimed-step reports p false q io' h = cc h
Untimed-step closes p true q io' h = same Untimed h (untimed_io-Untimed p false true)
Untimed-step closes p false q io' h = cc h
Untimed-step resumes holding r true io' h = same Untimed h (untimed_io-Untimed _ r false)
Untimed-step resumes calling r true io' h = cc
Untimed-step resumes adding r true io' h = cc
Untimed-step resumes (back x) r true io' h = cc
Untimed-step resumes p r false io' h = cc h

Untimed-untimed_io : (io : Io) → Untimed io → io ≡ untimed_io io.phase io.registered io.queued
Untimed-untimed_io io u = cc (u.timer, u.due, u.cancelled)

Reach-Untimed : {io : Io} → Reach false new_io io → Untimed io
Reach-Untimed here = record { timer = refl; due = refl; cancelled = refl }
Reach-Untimed (later {mid} {io'} e r h) =
    Untimed-step e mid.phase mid.registered mid.queued io'
      (ap (io_step false e) (sym (Untimed-untimed_io mid (Reach-Untimed r))) ∙ h)

-- An outcome that is the result of the last call, or the failure of addEvent.
abbrev pub is_untimed : Outcome → Bool
is_untimed (of_call (got n)) = true
is_untimed (of_call (failed eintr)) = false
is_untimed (of_call (failed eagain)) = false
is_untimed (of_call (failed etimedout)) = true
is_untimed (of_call (failed (other n))) = true
is_untimed (no_event e) = true
is_untimed timed_out = false

Sound-is_untimed : (x : Outcome) (io : Io) → Untimed io → Sound x io → is_untimed x ≡ true
Sound-is_untimed (of_call (got n)) io u s = refl
Sound-is_untimed (of_call (failed eintr)) io u s = s
Sound-is_untimed (of_call (failed eagain)) io u s = s
Sound-is_untimed (of_call (failed etimedout)) io u s = refl
Sound-is_untimed (of_call (failed (other n))) io u s = refl
Sound-is_untimed (no_event e) io u s = refl
Sound-is_untimed timed_out io u s = cc (u.cancelled, s)

back-Settled : (x : Outcome) (io : Io) → io.phase ≡ back x → Settled io.phase io → Sound x io
back-Settled x io e g = (subst (λ p. Settled p io) e g).3

-- What the events tell do_io: the result of the last call, or the failure of addEvent behind it.
abbrev pub told_by : Outcome → Event → Outcome
told_by y (calls a) = of_call a
told_by y (adds none) = y
told_by y (adds (some e)) = no_event e
told_by y expires = y
told_by y fires = y
told_by y reports = y
told_by y closes = y
told_by y resumes = y

abbrev pub last_told : Outcome → List Event → Outcome
last_told y [] = y
last_told y (e ∷ es) = last_told (told_by y e) es

abbrev Told : Phase → Outcome → Type 0
Told calling y = Unit {0}
Told adding y = Unit {0}
Told holding y = Unit {0}
Told (back z) y = z ≡ y

calls-Told :
    (a : Attempt) (r q : Bool) (io' : Io) (y : Outcome)
    → io_step false (calls a) (untimed_io calling r q) ≡ some io'
    → Told io'.phase (of_call a)
unfolding io_step on_call
calls-Told (got n) r q io' y h = same (λ io. Told io.phase (of_call (got n))) h refl
calls-Told (failed eintr) r q io' y h = same (λ io. Told io.phase (of_call (failed eintr))) h tt
calls-Told (failed eagain) r q io' y h = same (λ io. Told io.phase (of_call (failed eagain))) h tt
calls-Told (failed etimedout) r q io' y h =
    same (λ io. Told io.phase (of_call (failed etimedout))) h refl
calls-Told (failed (other n)) r q io' y h =
    same (λ io. Told io.phase (of_call (failed (other n)))) h refl

Told-step :
    (e : Event) (p : Phase) (r q : Bool) (io' : Io) (y : Outcome)
    → Told p y
    → io_step false e (untimed_io p r q) ≡ some io'
    → Told io'.phase (told_by y e)
unfolding io_step on_add on_resume
Told-step (calls a) calling r q io' y t h = calls-Told a r q io' y h
Told-step (calls a) adding r q io' y t h = cc h
Told-step (calls a) holding r q io' y t h = cc h
Told-step (calls a) (back x) r q io' y t h = cc h
Told-step (adds none) adding r q io' y t h = same (λ io. Told io.phase y) h tt
Told-step (adds (some a)) adding r q io' y t h = same (λ io. Told io.phase (no_event a)) h refl
Told-step (adds a) calling r q io' y t h = cc h
Told-step (adds a) holding r q io' y t h = cc h
Told-step (adds a) (back x) r q io' y t h = cc h
Told-step expires p r q io' y t h = cc h
Told-step fires p r q io' y t h = cc h
Told-step reports p true q io' y t h = same (λ io. Told io.phase y) h t
Told-step reports p false q io' y t h = cc h
Told-step closes p true q io' y t h = same (λ io. Told io.phase y) h t
Told-step closes p false q io' y t h = cc h
Told-step resumes holding r true io' y t h = same (λ io. Told io.phase y) h tt
Told-step resumes calling r true io' y t h = cc
Told-step resumes adding r true io' y t h = cc
Told-step resumes (back x) r true io' y t h = cc
Told-step resumes p r false io' y t h = cc h

run_events-Told :
    (es : List Event) (io : Io) (y : Outcome) {io' : Io}
    → Reach false new_io io
    → Told io.phase y
    → run_events false es io ≡ some io'
    → Told io'.phase (last_told y es)
unfolding run_events
run_events-Told [] io y r t h = same (λ io. Told io.phase y) h t
run_events-Told (e ∷ es) io y r t h =
    let (mid, first, rest) = run_events-cons false e es io h in
    let same_io = Untimed-untimed_io io (Reach-Untimed r) in
    run_events-Told es mid (told_by y e) (later e r first)
      (Told-step e io.phase io.registered io.queued mid y t
        (ap (io_step false e) (sym same_io) ∙ first))
      rest

-- Without a time-out, whatever events lead `do_io` from its start to where it is back, it comes
-- back with what the last call among them gave, neither EINTR nor EAGAIN, or with the failure of
-- addEvent if that came behind the call, and never with an ETIMEDOUT of its own.
pub untimed_outcome :
    (es : List Event) (x y : Outcome) {io : Io}
    → run_events false es new_io ≡ some io
    → io.phase ≡ back x
    → (x ≡ last_told y es) × (is_untimed x ≡ true)
untimed_outcome es x y {io} h e =
    let r = run_events-Reach false es new_io new_io here h in
    (
      subst (λ p. Told p (last_told y es)) e (run_events-Told es new_io y here tt h),
      Sound-is_untimed x io (Reach-Untimed r) (back-Settled x io e (Reach-Settled false r)),
    )
