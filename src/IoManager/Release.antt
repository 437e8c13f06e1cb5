-- ===== src/IoManager/Release.antt =====
-- What `delEvent` and `cancelEvent` do to well-formed tables.
use server_demo.Common.{
  ℕ, ◌+◌, ◌≡◌, inl, inr, refl, sym, ap, ◌∙◌, subst, true, none, some, List, [], ◌++◌, get_elem?,
  set, append-nil, arith, Option-cases,
}
use server_demo.IoManager.State.{
  Event, no_event, without, Kind, reading, writing, mask, Task, EventContext, no_context, FdContext,
  get_context, put_context, IoManager, told, epoll_ctl, decrement, tasks, used, handed,
  trigger_event,
}
use server_demo.IoManager.Events.{
  ok, with_context, op_for, del_from, del_event, triggered, cancel_from, cancel_event,
}
use server_demo.IoManager.Valid.{
  Waiting, Agrees, count, watched, IsValid, context-Agrees, events_of, events_at, Changed, replaced,
}
use server_demo.IoManager.Register.{has, any-both, waiting_at}
use server_demo.IoManager.Valid.{context_or_new}

-- The context that is left when an event is taken away, and the task that waited for it.
abbrev pub released_context : Kind → FdContext → FdContext
released_context kind c =
    put_context kind no_context (record c { events = without c.events (mask kind) })

abbrev pub task_of : EventContext → List (ℕ × Task)
task_of e = elim e.scheduler [ none ↦ [] | some s ↦ tasks s e.cb e.fiber ]

pub record Releases (kind : Kind) (c : FdContext) : Type 0 where
  pub agrees : Agrees (released_context kind c)
  pub events : (released_context kind c).events ≡ without c.events (mask kind)
  pub one_less : count c.events ≡ count (without c.events (mask kind)) + 1
  pub triggers : trigger_event kind c ≡ some (released_context kind c, task_of (get_context kind c))

used_lem : (e : EventContext) → Waiting true e → used e ≡ no_context
used_lem e w = ground (arith, w.1)

handed_lem :
    (e : EventContext) (c : FdContext)
    → Waiting true e
    → handed e.scheduler e c ≡ some (c, task_of e)
handed_lem e c w = ground (arith, w.0)

Waiting-of :
    (kind : Kind) (c : FdContext)
    → Agrees c
    → has kind c.events ≡ true
    → Waiting true (get_context kind c)
Waiting-of reading c a h = subst (λ b. Waiting b c.read) h a.reads
Waiting-of writing c a h = subst (λ b. Waiting b c.write) h a.writes

triggers_lem :
    (kind : Kind) (c : FdContext)
    → Agrees c
    → has kind c.events ≡ true
    → trigger_event kind c ≡ some (released_context kind c, task_of (get_context kind c))
unfolding trigger_event
triggers_lem kind c a h =
    let w = Waiting-of kind c a h in
    rw (any-both kind c.events, h, used_lem (get_context kind c) w)
      (handed_lem (get_context kind c) (released_context kind c) w)

pub releases : (kind : Kind) (c : FdContext) → Agrees c → has kind c.events ≡ true → Releases kind c
releases reading c a h = record {
  agrees = record { reads = ground arith; writes = ground (arith, a.writes) };
  events = refl;
  one_less = ground (arith, h);
  triggers = triggers_lem reading c a h;
}
releases writing c a h = record {
  agrees = record { reads = ground (arith, a.reads); writes = ground arith };
  events = refl;
  one_less = ground (arith, h);
  triggers = triggers_lem writing c a h;
}

pub told-op_for : (events : Event) → told (op_for events) events ≡ watched events
told-op_for events = ground arith

no_event-has : (kind : Kind) → has kind no_event ≡ true → ⊥
no_event-has reading h = cc
no_event-has writing h = cc

del_from-Changed :
    (fd : ℕ) (kind : Kind) (m : IoManager) (c : FdContext)
    → IsValid m
    → get_elem? m.contexts fd ≡ some c
    → has kind c.events ≡ true
    → (m' : IoManager) × (del_from fd kind true m c ≡ ok true m')
      × Changed fd (without c.events (mask kind)) [] m m'
unfolding del_from
del_from-Changed fd kind m c v at h =
    let r = releases kind c (context-Agrees m fd c v at) h in
    let events = without c.events (mask kind) in
    let c' = released_context kind c in
    let epoll = epoll_ctl (op_for events) fd events m.epoll in
    (
      record m { contexts = set m.contexts fd c'; pending = decrement m.pending; epoll = epoll },
      rw (any-both kind c.events, h) refl,
      replaced fd c c' events m (decrement m.pending) epoll m.scheduled [] v at r.events r.agrees
          (λ x. ground (arith, told-op_for events)) (omega arith) (omega (arith, r.one_less))
          (sym (append-nil m.scheduled)),
    )

cancel_from-Changed :
    (fd : ℕ) (kind : Kind) (m : IoManager) (c : FdContext)
    → IsValid m
    → get_elem? m.contexts fd ≡ some c
    → has kind c.events ≡ true
    → (m' : IoManager) × (cancel_from fd kind true m c ≡ ok true m')
      × Changed fd (without c.events (mask kind)) (task_of (get_context kind c)) m m'
unfolding cancel_from triggered
cancel_from-Changed fd kind m c v at h =
    let r = releases kind c (context-Agrees m fd c v at) h in
    let events = without c.events (mask kind) in
    let c' = released_context kind c in
    let epoll = epoll_ctl (op_for events) fd events m.epoll in
    let tasks = task_of (get_context kind c) in
    (
      record {
        contexts = set m.contexts fd c';
        pending = decrement m.pending;
        epoll = epoll;
        scheduled = m.scheduled ++ tasks;
      },
      rw (any-both kind c.events, h, r.triggers) refl,
      replaced fd c c' events m (decrement m.pending) epoll (m.scheduled ++ tasks) tasks v at
          r.events r.agrees (λ x. ground (arith, told-op_for events)) (omega arith)
          (omega (arith, r.one_less)) refl,
    )

-- A registered event has a context in the vector.
pub registered_context :
    (fd : ℕ) (kind : Kind) (m : IoManager)
    → has kind (events_at m fd) ≡ true
    → (c : FdContext) × (get_elem? m.contexts fd ≡ some c) × (has kind c.events ≡ true)
registered_context fd kind m h = elim (Option-cases (get_elem? m.contexts fd)) [
  | inl out ↦ absurd (no_event-has kind (sym (ap (λ o. has kind (events_of o)) out) ∙ h))
  | inr (c, at) ↦ (c, at, sym (ap (λ o. has kind (events_of o)) at) ∙ h)
]

-- `delEvent` of a registered event, accepted by the kernel, on well-formed tables, returns true:
-- the event is registered no more, no other mask has changed, nothing has been scheduled, and the
-- tables are well-formed.
pub del_event-Changed :
    (fd : ℕ) (kind : Kind) (m : IoManager)
    → IsValid m
    → has kind (events_at m fd) ≡ true
    → (m' : IoManager) × (del_event fd kind true m ≡ ok true m')
      × Changed fd (without (events_at m fd) (mask kind)) [] m m'
unfolding del_event
del_event-Changed fd kind m v h =
    let (c, at, there) = registered_context fd kind m h in
    let (m', returns, changed) = del_from-Changed fd kind m c v at there in
    (
      m',
      ap (λ o. with_context o m (del_from fd kind true m)) at ∙ returns,
      subst (λ o. Changed fd (without (events_of o) (mask kind)) [] m m') (sym at) changed,
    )

-- `cancelEvent` of a registered event, accepted by the kernel, on well-formed tables, returns
-- true: the event is registered no more, exactly the task that waited for it has been handed to
-- its scheduler, neither another mask nor what waits for it has changed, and the tables are
-- well-formed.
pub cancel_event-Changed :
    (fd : ℕ) (kind : Kind) (m : IoManager)
    → IsValid m
    → has kind (events_at m fd) ≡ true
    → (m' : IoManager) × (cancel_event fd kind true m ≡ ok true m')
      × Changed fd (without (events_at m fd) (mask kind)) (task_of (waiting_at m fd kind)) m m'
unfolding cancel_event
cancel_event-Changed fd kind m v h =
    let (c, at, there) = registered_context fd kind m h in
    let (m', returns, changed) = cancel_from-Changed fd kind m c v at there in
    (
      m',
      ap (λ o. with_context o m (cancel_from fd kind true m)) at ∙ returns,
      subst
          (λ o.
            Changed fd (without (events_of o) (mask kind))
              (task_of (get_context kind (context_or_new o))) m m')
          (sym at) changed,
    )
