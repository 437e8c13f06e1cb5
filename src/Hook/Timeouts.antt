-- ===== src/Hook/Timeouts.antt =====
-- The time-out of do_io: when it comes, and when it is lost.
use server_demo.Common.{
  ℕ, zero, suc, ◌≡◌, refl, sym, ap, ◌∙◌, Bool, true, false, Option, none, some, List, [], ◌∷◌, All,
  Option-cases, inl, inr,
}
use server_demo.Hook.DoIo.{
  calling, back, holding, Io, Event, calls, adds, expires, fires, reports, closes, resumes, on_fire,
  on_add, io_step, adding, Reach, new_io, later, Phase,
}
use server_demo.Hook.Waits.{same, Settled, Reach-Settled}

-- A sequence of events.
unfoldable pub run_events : Bool → List Event → Io → Option Io
run_events timed [] io = some io
run_events timed (e ∷ es) io = elim (io_step timed e io) [
  | none ↦ none
  | some io' ↦ run_events timed es io'
]

abbrev pub is_wake : Event → Bool
is_wake (calls a) = false
is_wake (adds e) = false
is_wake expires = false
is_wake fires = false
is_wake reports = true
is_wake closes = true
is_wake resumes = false

-- The fiber is held for an event, and the callback of the timer has run already.
pub record Lost (io : Io) : Type 0 where
  pub held : io.phase ≡ holding
  pub waits : io.registered ≡ true
  pub cancelled : io.cancelled ≡ true
  pub out : io.queued ≡ false

-- The steps on such a state, which the timer and the count of callbacks are left to vary in.
abbrev lost_io : Bool → ℕ → Io
lost_io t d = record {
  phase = holding;
  timer = t;
  due = d;
  cancelled = true;
  registered = true;
  queued = false;
}

lost_io-Lost : (t : Bool) (d : ℕ) → Lost (lost_io t d)
lost_io-Lost t d = record { held = refl; waits = refl; cancelled = refl; out = refl }

Lost-step :
    (timed : Bool) (e : Event) (t : Bool) (d : ℕ) (io' : Io)
    → is_wake e ≡ false
    → io_step timed e (lost_io t d) ≡ some io'
    → Lost io'
unfolding io_step on_fire
Lost-step timed (calls a) t d io' n h = cc h
Lost-step timed (adds a) t d io' n h = cc h
Lost-step timed expires true d io' n h = same Lost h (lost_io-Lost false (suc d))
Lost-step timed expires false d io' n h = cc h
Lost-step timed fires t zero io' n h = cc h
Lost-step timed fires t (suc d) io' n h = same Lost h (lost_io-Lost t d)
Lost-step timed reports t d io' n h = cc n
Lost-step timed closes t d io' n h = cc n
Lost-step timed resumes t d io' n h = cc h

Lost-lost_io : (io : Io) → Lost io → io ≡ lost_io io.timer io.due
Lost-lost_io io l = cc (l.held, l.waits, l.cancelled, l.out)

io_step-Lost :
    (timed : Bool) (e : Event) (io io' : Io)
    → is_wake e ≡ false
    → Lost io
    → io_step timed e io ≡ some io'
    → Lost io'
io_step-Lost timed e io io' n l h =
    Lost-step timed e io.timer io.due io' n (ap (io_step timed e) (sym (Lost-lost_io io l)) ∙ h)

pub run_events-cons :
    (timed : Bool) (e : Event) (es : List Event) (io : Io) {io' : Io}
    → run_events timed (e ∷ es) io ≡ some io'
    → (mid : Io) × (io_step timed e io ≡ some mid) × (run_events timed es mid ≡ some io')
unfolding run_events
run_events-cons timed e es io h = elim (Option-cases (io_step timed e io)) [
  | inl q ↦ let h' = rw (q, run_events) at h in cc h'
  | inr (mid, q) ↦ (mid, q, rw (q, run_events) at h)
]

pub run_events-Reach :
    (timed : Bool) (es : List Event) (start io : Io) {io' : Io}
    → Reach timed start io
    → run_events timed es io ≡ some io'
    → Reach timed start io'
unfolding run_events
run_events-Reach timed [] start io r h = same (Reach timed start) h r
run_events-Reach timed (e ∷ es) start io r h =
    let (mid, first, rest) = run_events-cons timed e es io h in
    run_events-Reach timed es start mid (later e r first) rest

-- The state that events lead to, if they are possible, is lost.
abbrev pub StaysLost : Option Io → Type 0
StaysLost none = Unit {0}
StaysLost (some io) = Lost io

run_events-StaysLost :
    (timed : Bool) (es : List Event) (io : Io)
    → All (λ e. is_wake e ≡ false) es
    → Lost io
    → StaysLost (run_events timed es io)
unfolding run_events
run_events-StaysLost timed [] io n l = l
run_events-StaysLost timed (e ∷ es) io n l = elim (Option-cases (io_step timed e io)) [
  | inl q ↦ rw (q, run_events) tt
  | inr (mid, q) ↦
      rw (q, run_events)
        (run_events-StaysLost timed es mid n.1 (io_step-Lost timed e io mid n.0 l q))
]

-- The timer that do_io has added runs out, and its callback runs, before addEvent.
abbrev pub too_early : List Event
too_early = expires ∷ fires ∷ adds none ∷ []

too_early-Lost :
    (p : Phase) (t : Bool) (d : ℕ) (c r q : Bool)
    → Settled p
        (record { phase = p; timer = t; due = d; cancelled = c; registered = r; queued = q })
    → p ≡ adding
    → t ≡ true
    → (mid : Io) × (run_events true too_early
          (record { phase = p; timer = t; due = d; cancelled = c; registered = r; queued = q })
        ≡ some mid)
      × Lost mid
unfolding run_events io_step on_fire on_add
too_early-Lost adding true d true false false g e k =
    (_, refl, record { held = refl; waits = refl; cancelled = refl; out = refl })
too_early-Lost adding true d false false false g e k =
    (_, refl, record { held = refl; waits = refl; cancelled = refl; out = refl })
too_early-Lost adding true d c true q g e k = absurd (cc g.0)
too_early-Lost adding true d c false true g e k = absurd (cc g.1)
too_early-Lost p false d c r q g e k = absurd (cc k)
too_early-Lost calling true d c r q g e k = absurd (cc e)
too_early-Lost holding true d c r q g e k = absurd (cc e)
too_early-Lost (back x) true d c r q g e k = absurd (cc e)

-- From every state that `do_io` can reach in front of addEvent, with the timer it has added still
-- there, the timer can run out and its callback run before addEvent succeeds. The fiber is then
-- held for an event with the flag set, and no sequence of events without a report of epoll or a
-- `close` of the descriptor wakes it, not even a time-out.
pub timeout_missed :
    (es : List Event) {io : Io}
    → Reach true new_io io
    → io.phase ≡ adding
    → io.timer ≡ true
    → All (λ e. is_wake e ≡ false) es
    → (mid : Io) × (run_events true too_early io ≡ some mid)
      × Lost mid
      × StaysLost (run_events true es mid)
timeout_missed es {io} r e k n =
    let (mid, runs, lost) =
      too_early-Lost io.phase io.timer io.due io.cancelled io.registered io.queued
        (Reach-Settled true r) e k in
    (mid, runs, lost, run_events-StaysLost true es mid n lost)
