-- ===== src/IoManager/Cancel.antt =====
-- `addEvent` undone by `cancelEvent`, and the calls for an event that is not registered.
use server_demo.Common.{
  ℕ, ◌≡◌, refl, ap, ◌∙◌, Bool, true, false, Option, none, some, [], ◌∷◌, ◌++◌, get_elem?,
  append-nil, arith,
}
use server_demo.IoManager.State.{
  Event, either, without, Kind, reading, writing, mask, callback, FdContext, IoManager,
}
use server_demo.IoManager.Events.{
  ok, Caller, is_none, add_event, with_context, del_from, del_event, cancel_from, cancel_event,
}
use server_demo.IoManager.Valid.{IsValid, events_of, events_at, Changed}
use server_demo.IoManager.Register.{has, any-both, waiting_at, add_event-Changed}
use server_demo.IoManager.Release.{task_of, cancel_event-Changed}

has-either : (kind : Kind) (e : Event) → has kind (either e (mask kind)) ≡ true
has-either reading e = ground arith
has-either writing e = ground arith

without-either :
    (kind : Kind) (e : Event) → has kind e ≡ false → without (either e (mask kind)) (mask kind) ≡ e
without-either reading e h = ground (arith, h)
without-either writing e h = ground (arith, h)

-- `addEvent` with a callback of an event that is not registered, by a caller that runs in a fiber
-- under a scheduler, and then `cancelEvent` of it, both accepted by the kernel, on well-formed
-- tables, both succeed: all masks are as they were, exactly the callback has been handed to the
-- caller's scheduler, and the tables are well-formed.
pub cancel_event-add_event :
    (fd f s : ℕ) (kind : Kind) (caller : Caller) (m : IoManager)
    → IsValid m
    → caller.scheduler ≡ some s
    → caller.exec ≡ true
    → has kind (events_at m fd) ≡ false
    → (m' m'' : IoManager) × (add_event fd kind (some f) caller true m ≡ ok true m')
      × (cancel_event fd kind true m' ≡ ok true m'')
      × Changed fd (events_at m fd) ((s, callback f) ∷ []) m m''
cancel_event-add_event fd f s kind caller m v e x h =
    let (m', added, changed, waits) =
      add_event-Changed fd kind (some f) caller m v (ap is_none e) x h in
    let (m'', cancelled, back) =
      cancel_event-Changed fd kind m' changed.valid
        (ap (has kind) changed.this ∙ has-either kind (events_at m fd)) in
    let tasks : task_of (waiting_at m' fd kind) ≡ (s, callback f) ∷ [] =
      ap task_of waits
      ∙ ap (λ o. task_of (record { scheduler = o; fiber = none; cb = some f })) e in
    (
      m',
      m'',
      added,
      cancelled,
      record {
        this =
            back.this
            ∙ ap (λ e. without e (mask kind)) changed.this
            ∙ without-either kind (events_at m fd) h;
        others = λ j k. back.others j k ∙ changed.others j k;
        kept = λ j k. back.kept j k ∙ changed.kept j k;
        handed =
            back.handed
            ∙ ap (◌++◌ m'.scheduled) tasks
            ∙ ap (λ q. q ++ ((s, callback f) ∷ [])) (changed.handed ∙ append-nil m.scheduled);
        valid = back.valid;
      },
    )

-- `delEvent` and `cancelEvent` of an event that is not registered, the descriptor out of the vector
-- included, return false and change nothing.
pub del_event-unregistered :
    (fd : ℕ) (kind : Kind) (accepted : Bool) (m : IoManager)
    → has kind (events_at m fd) ≡ false
    → (del_event fd kind accepted m ≡ ok false m) × (cancel_event fd kind accepted m ≡ ok false m)
unfolding del_event cancel_event
del_event-unregistered fd kind accepted m h = at (get_elem? m.contexts fd) h
  where
    at :
        (o : Option FdContext)
        → has kind (events_of o) ≡ false
        → (with_context o m (del_from fd kind accepted m) ≡ ok false m)
          × (with_context o m (cancel_from fd kind accepted m) ≡ ok false m)
    at none h = (refl, refl)
    at (some c) h = (
      unfold del_from in rw (any-both kind c.events, h) refl,
      unfold cancel_from in rw (any-both kind c.events, h) refl,
    )
