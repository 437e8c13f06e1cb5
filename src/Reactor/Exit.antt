-- ===== src/Reactor/Exit.antt =====
-- When `idle` is left.
use server_demo.Common.{
  ℕ, zero, suc, ◌*◌, ◌^◌, ◌≤◌, ◌<◌, ◌≡◌, ◌↔◌, refl, sym, ap, ◌∙◌, Bool, true, false, Option, none,
  some, List, [], ◌∷◌, All, ◌==◌, arith, if◌then◌else◌, length, get_elem?,
}
use server_demo.Timer.Manager.{
  Timer, TimerManager, get_next_timer, wait_for, no_timer, list_expired_cb,
}
use server_demo.Scheduler.Queue
use server_demo.Scheduler.Queue.{FiberAndThread, Scheduler, is_empty}
use server_demo.IoManager.State.{Event, no_event, FdContext, IoManager}
use server_demo.IoManager.Valid
use server_demo.IoManager.Valid.{count, total, events_of, events_at}
use server_demo.Reactor.Round.{
  Reactor, is_stopping, Ready, handle_all, hand_all, schedule_cbs, Outcome, exits, swaps_out,
  aborts, dispatch, round,
}

-- The timers of the set wait for a time below the largest uint64_t.
abbrev pub AllTimed : TimerManager → Type 0
AllTimed m = All (λ a. (m.heap a).next < no_timer) m.timers

wait_for-no_timer :
    (heap : ℕ → Timer) (now : ℕ) (ts : List ℕ)
    → All (λ a. (heap a).next < no_timer) ts
    → ((wait_for heap ts now == no_timer) ≡ true) ↔ (ts ≡ [])
wait_for-no_timer heap now [] h = (λ e. refl, λ e. refl)
wait_for-no_timer heap now (a ∷ ts) h = (λ e. ground (arith, h.0), λ e. cc)

-- A count of no events is one of empty masks.
count_zero : (e : Event) → count e ≡ 0 → e ≡ no_event
count_zero e h = ground (arith, h)

total_zero :
    (cs : List FdContext) → total cs ≡ 0 → (fd : ℕ) → events_of (get_elem? cs fd) ≡ no_event
total_zero [] h fd = refl
total_zero (c ∷ cs) h zero = count_zero c.events (omega (arith, h))
total_zero (c ∷ cs) h (suc fd) = total_zero cs (omega (arith, h)) fd

zero_total :
    (cs : List FdContext) → ((fd : ℕ) → events_of (get_elem? cs fd) ≡ no_event) → total cs ≡ 0
zero_total [] h = refl
zero_total (c ∷ cs) h =
    omega (arith, ap (λ (e : Event). count e) (h 0), zero_total cs (λ fd. h (suc fd)))

count_two : (e : Event) → count e ≤ 2
count_two e = ground arith

total_bound : (cs : List FdContext) → total cs ≤ 2 * length cs
total_bound [] = omega arith
total_bound (c ∷ cs) = omega (arith, count_two c.events, total_bound cs)

abbrev pub is_exit : Outcome → Bool
is_exit (exits r) = true
is_exit (swaps_out r) = false
is_exit aborts = false

is_exit-dispatch :
    (now key : ℕ) (reports : List Ready) (r : Reactor)
    → is_exit (dispatch now key reports r) ≡ false
unfolding dispatch
is_exit-dispatch now key reports r =
    let r' =
      schedule_cbs (list_expired_cb now key r.timers).0
        (record r { timers = (list_expired_cb now key r.timers).1 }) in
    at (handle_all reports (record r'.events { scheduled = [] })) (λ events.
      hand_all events.scheduled
        (record r' { events = record events { scheduled = r'.events.scheduled } }))
  where
    at :
        (o : Option IoManager) (next : IoManager → Reactor)
        → is_exit
            (elim o as (λ o. Outcome) [ none ↦ aborts | some events ↦ swaps_out (next events) ])
          ≡ false
    at none next = refl
    at (some events) next = refl

-- Nothing is left for the I/O manager to wait for, and the scheduler has been told to stop and has
-- nothing to run.
pub record Quiet (r : Reactor) : Type 0 where
  pub events : (fd : ℕ) → events_at r.events fd ≡ no_event
  pub timers : r.timers.timers ≡ []
  pub queue : r.sched.fibers ≡ []
  pub active : r.sched.active ≡ 0
  pub auto_stop : r.sched.auto_stop ≡ true
  pub stopping : r.sched.stopping ≡ true

empty_queue : (fibers : List FiberAndThread) → is_empty fibers ≡ true → fibers ≡ []
empty_queue [] h = refl
empty_queue (f ∷ fs) h = cc h

stops_iff :
    (now : ℕ) (r : Reactor)
    → AllTimed r.timers
    → Valid.IsValid r.events
    → length r.events.contexts < 2 ^ 63
    → ((is_stopping now r).0 ≡ true) ↔ Quiet r
unfolding is_stopping get_next_timer Queue.is_stopping
stops_iff now r timed v small =
    let no = wait_for-no_timer r.timers.heap now r.timers.timers timed in
    let bound = total_bound r.events.contexts in
    (
      λ h. record {
        events = total_zero r.events.contexts (
            let none_left : r.events.pending ≡ 0 = ground (arith, h) in
            omega (arith, none_left, v.counted, bound, small));
        timers = no.0 (ground (arith, h));
        queue = empty_queue r.sched.fibers (ground (arith, h));
        active = ground (arith, h);
        auto_stop = ground (arith, h);
        stopping = ground (arith, h);
      },
      λ q.
          let none_left : r.events.pending ≡ 0 =
            omega (arith, v.counted, zero_total r.events.contexts q.events) in
          let empty : is_empty r.sched.fibers ≡ true = ap is_empty q.queue in
          ground (arith, none_left, no.1 q.timers, empty, q.active, q.auto_stop, q.stopping),
    )

-- With timers below the largest uint64_t and well-formed events of fewer than 2^63 descriptors, a
-- round of `idle` leaves the loop exactly if no descriptor has a registered event, there is no
-- timer, both flags of the scheduler are set, its queue is empty and no thread is active;
-- otherwise it goes on behind epoll_wait. In both cases only `m_tickled` has been cleared.
pub is_exit-round :
    (before now key : ℕ) (reports : List Ready) (r : Reactor)
    → AllTimed r.timers
    → Valid.IsValid r.events
    → length r.events.contexts < 2 ^ 63
    → ((is_exit (round before now key reports r) ≡ true) ↔ Quiet r)
      × (round before now key reports r ≡ (
          let r' = record r { timers = record r.timers { tickled = false } } in
          if is_exit (round before now key reports r)
          then exits r'
          else dispatch now key reports r'))
unfolding round is_stopping get_next_timer
is_exit-round before now key reports r timed v small =
    let iff = stops_iff before r timed v small in
    let (stops, next, r') = is_stopping before r in
    let test : is_exit (round before now key reports r) ≡ stops =
      exit_if stops r' (dispatch now key reports r') (is_exit-dispatch now key reports r') in
    (
      (λ h. iff.0 (sym test ∙ h), λ q. test ∙ iff.1 q),
      ap (λ b. if b then exits r' else dispatch now key reports r') (sym test),
    )
  where
    exit_if :
        (b : Bool) (x : Reactor) (d : Outcome)
        → is_exit d ≡ false
        → is_exit (if b then exits x else d) ≡ b
    exit_if true x d e = refl
    exit_if false x d e = e
