-- ===== src/IoManager/Aborts.antt =====
-- The calls that end in a failed assertion.
use server_demo.Common.{
  ℕ, zero, suc, ◌≡◌, refl, sym, ap, ◌∙◌, Bool, true, false, ◌&&◌, Option, some, List, [], ◌∷◌,
  get_elem?, arith, length, leb, inl, inr, Bool-cases,
}
use server_demo.IoManager.State.{
  both, without, any, Kind, reading, writing, FdContext, IoManager, epoll_ctl, trigger_event,
}
use server_demo.IoManager.Events.{
  Result, ok, abort, Caller, add_to, add_event, with_context, op_for, triggered, trigger_if, Report,
  handle_from, handle_report,
}
use server_demo.IoManager.Valid.{IsValid, Agrees, context-Agrees, events_of, events_at}
use server_demo.IoManager.Register.{has, any-both}
use server_demo.IoManager.Release.{registered_context, released_context}
use server_demo.IoManager.Report.{trigger_if_lem, registered_at, step}

in_bounds :
    (cs : List FdContext) (i : ℕ) (c : FdContext)
    → get_elem? cs i ≡ some c
    → leb (length cs) i ≡ false
in_bounds [] i c e = absurd (cc)
in_bounds (d ∷ cs) zero c e = ground arith
in_bounds (d ∷ cs) (suc i) c e = ground (arith, in_bounds cs i c e)

add_to-twice :
    (fd : ℕ) (kind : Kind) (cb : Option ℕ) (caller : Caller) (accepted : Bool) (c : FdContext)
    (m : IoManager)
    → has kind c.events ≡ true
    → add_to fd kind cb caller accepted c m ≡ abort
unfolding add_to
add_to-twice fd reading cb caller accepted c m h = ground (arith, h)
add_to-twice fd writing cb caller accepted c m h = ground (arith, h)

-- `addEvent` of an event that is registered aborts.
pub add_event-twice :
    (fd : ℕ) (kind : Kind) (cb : Option ℕ) (caller : Caller) (accepted : Bool) (m : IoManager)
    → has kind (events_at m fd) ≡ true
    → add_event fd kind cb caller accepted m ≡ abort
unfolding add_event
add_event-twice fd kind cb caller accepted m h =
    let (c, at, there) = registered_context fd kind m h in
    rw (in_bounds m.contexts fd c at, at) (add_to-twice fd kind cb caller accepted c _ there)

trigger_if-absent :
    (kind : Kind) (fd : ℕ) (c : FdContext) (m : IoManager) (f : FdContext → IoManager → Result)
    → has kind c.events ≡ false
    → trigger_if true kind fd c m f ≡ abort
unfolding trigger_if triggered trigger_event
trigger_if-absent kind fd c m f h = rw (any-both kind c.events, h) refl

abbrev pub both_ready : Report
both_ready = record { ready = record { read = true; write = true }; error = false }

handle_from-stale :
    (fd : ℕ) (m : IoManager) (c : FdContext)
    → Agrees c
    → any c.events ≡ true
    → (c.events.read && c.events.write) ≡ false
    → handle_from fd both_ready true m c ≡ abort
unfolding handle_from
handle_from-stale fd m c a some_event not_both =
    let hit : any (both c.events both_ready.ready) ≡ true = ground (arith, some_event) in
    let left = without c.events both_ready.ready in
    let told = record m { epoll = epoll_ctl (op_for left) fd left m.epoll } in
    let finish = λ (c : FdContext) (m : IoManager). ok true m in
    let next = λ (c : FdContext) (m : IoManager). trigger_if true writing fd c m finish in
    rw hit (elim (Bool-cases c.events.read) [
      | inr unread ↦ trigger_if-absent reading fd c told next unread
      | inl read ↦
          trigger_if_lem true reading fd c told next a (λ h. read)
          ∙ trigger_if-absent writing fd (released_context reading c) (step true reading fd c told)
              finish (ground (arith, read, not_both))
    ])

-- A report without an error that a descriptor can be read and written, of which exactly one is
-- registered, accepted by the kernel, on well-formed tables, makes `idle` abort in an assertion.
pub handle_report-stale :
    (fd : ℕ) (m : IoManager)
    → IsValid m
    → any (events_at m fd) ≡ true
    → ((events_at m fd).read && (events_at m fd).write) ≡ false
    → handle_report fd both_ready true m ≡ abort
unfolding handle_report
handle_report-stale fd m v some_event not_both =
    let (c, at) = registered_at fd m some_event in
    ap (λ o. with_context o m (handle_from fd both_ready true m)) at
    ∙ handle_from-stale fd m c (context-Agrees m fd c v at)
        (sym (ap (λ o. any (events_of o)) at) ∙ some_event)
        (sym (ap (λ o. (events_of o).read && (events_of o).write) at) ∙ not_both)
