-- ===== src/Hook/Returns.antt =====
-- That do_io can always come back.
use server_demo.Common.{ℕ, ◌≡◌, refl, Bool, true, false, none, some, List, [], ◌∷◌, if◌then◌else◌}
use server_demo.Hook.DoIo.{
  got, Outcome, of_call, timed_out, Phase, calling, adding, holding, back, Io, Event, calls, adds,
  reports, resumes, on_call, on_add, on_resume, io_step, Reach, new_io,
}
use server_demo.Hook.Waits.{Settled, Reach-Settled}
use server_demo.Hook.Timeouts.{run_events}

-- What the loop comes back with if the system's call gives `n` when it is called next.
abbrev pub outcome_at : ℕ → Phase → Bool → Outcome
outcome_at n (back x) c = x
outcome_at n calling c = of_call (got n)
outcome_at n adding c = if c then timed_out else of_call (got n)
outcome_at n holding c = if c then timed_out else of_call (got n)

-- The events that are missing: addEvent succeeds, epoll reports, the fiber runs, the call gives `n`.
abbrev pub last_call : ℕ → Bool → List Event
last_call n c = if c then [] else calls (got n) ∷ []

abbrev pub missing : ℕ → Phase → Bool → Bool → List Event
missing n (back x) c r = []
missing n calling c r = calls (got n) ∷ []
missing n adding c r = adds none ∷ reports ∷ resumes ∷ last_call n c
missing n holding c true = reports ∷ resumes ∷ last_call n c
missing n holding c false = resumes ∷ last_call n c

-- The events run, and lead back with that outcome.
pub record Returns (timed : Bool) (n : ℕ) (io : Io) : Type 0 where
  pub last : Io
  pub runs : run_events timed (missing n io.phase io.cancelled io.registered) io ≡ some last
  pub outcome : last.phase ≡ back (outcome_at n io.phase io.cancelled)

settled-Returns :
    (timed : Bool) (n : ℕ) (p : Phase) (t : Bool) (d : ℕ) (c r q : Bool)
    → Settled p
        (record { phase = p; timer = t; due = d; cancelled = c; registered = r; queued = q })
    → Returns timed n
        (record { phase = p; timer = t; due = d; cancelled = c; registered = r; queued = q })
unfolding run_events io_step on_call on_add on_resume
settled-Returns timed n (back x) t d c r q g = record { last = _; runs = refl; outcome = refl }
settled-Returns timed n calling t d c r q g = record { last = _; runs = refl; outcome = refl }
settled-Returns timed n adding t d true r q g = record { last = _; runs = refl; outcome = refl }
settled-Returns timed n adding t d false r q g = record { last = _; runs = refl; outcome = refl }
settled-Returns timed n holding t d true true q g = record { last = _; runs = refl; outcome = refl }
settled-Returns timed n holding t d false true q g = record {
  last = _;
  runs = refl;
  outcome = refl;
}
settled-Returns timed n holding t d true false true g = record {
  last = _;
  runs = refl;
  outcome = refl;
}
settled-Returns timed n holding t d false false true g = record {
  last = _;
  runs = refl;
  outcome = refl;
}
settled-Returns timed n holding t d c false false g = cc g

-- From every state that `do_io` can reach, the events that are missing are possible in their
-- order: addEvent succeeds, epoll reports the event, the fiber runs, and the call gives `n`. They
-- lead to where `do_io` is back, with ETIMEDOUT if it was past a call and a callback had set the
-- flag, and otherwise with `n`; where it is back already no event is missing, and its outcome
-- stays.
pub Reach-Returns : (timed : Bool) (n : ℕ) {io : Io} → Reach timed new_io io → Returns timed n io
Reach-Returns timed n {io} r =
    settled-Returns timed n io.phase io.timer io.due io.cancelled io.registered io.queued
      (Reach-Settled timed r)
