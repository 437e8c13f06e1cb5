-- ===== src/IoManager/Events.antt =====
-- `addEvent`, `delEvent`, `cancelEvent`, `cancelAll`, and what `idle` does for an event that
-- epoll_wait reports. The result of each epoll_ctl is the argument `accepted`.
use server_demo.Common.{
  ℕ, ◌*◌, ◌/◌, Bool, true, false, not, ◌&&◌, ◌||◌, Option, none, some, List, ◌++◌, length,
  get_elem?, set, leb, if◌then◌else◌,
}
use server_demo.IoManager.State.{
  Event, no_event, both, either, without, any, Kind, reading, writing, mask, Task, EventContext,
  no_context, FdContext, get_context, put_context, IoManager, Op, add, mod_op, del, epoll_ctl,
  context_resize, increment, decrement, trigger_event,
}

-- A call returns: true for addEvent's 0, false for its -1. Or it aborts: an assertion fails, or a
-- pointer is null or out of bounds.
pub data Result : Type 0 where
  ok : Bool → IoManager → Result
  abort : Result

-- Who calls `addEvent`: Scheduler::GetThis(), Fiber::GetThis(), and whether that fiber is in the
-- state EXEC.
pub record Caller : Type 0 where
  pub scheduler : Option ℕ
  pub fiber : ℕ
  pub exec : Bool

abbrev pub is_none : Option ℕ → Bool
is_none none = true
is_none (some n) = false

-- What `addEvent` puts into the event's context.
abbrev pub filled : Caller → Option ℕ → EventContext
filled caller (some f) = record { scheduler = caller.scheduler; fiber = none; cb = some f }
filled caller none = record { scheduler = caller.scheduler; fiber = some caller.fiber; cb = none }

-- The assertions behind epoll_ctl.
abbrev pub may_fill : Caller → Option ℕ → EventContext → Bool
may_fill caller cb e =
    is_none e.scheduler && is_none e.fiber && is_none e.cb && (not (is_none cb) || caller.exec)

-- The part of `addEvent` with the context `c` of the descriptor at hand.
unfoldable pub add_to : ℕ → Kind → Option ℕ → Caller → Bool → FdContext → IoManager → Result
add_to fd kind cb caller accepted c m =
    let op = if any c.events then mod_op else add in
    let events = either c.events (mask kind) in
    let c' = put_context kind (filled caller cb) (record c { events = events }) in
    let m' : IoManager = record m {
      contexts = set m.contexts fd c';
      pending = increment m.pending;
      epoll = epoll_ctl op fd events m.epoll;
    } in
    if any c.events && any (mask kind) && any (both c.events (mask kind))
    then abort
    else if not accepted
    then ok false m
    else if may_fill caller cb (get_context kind c)
    then ok true m'
    else abort

-- A pointer taken out of the vector.
abbrev pub at_context : Option FdContext → (FdContext → Result) → Result
at_context none f = abort
at_context (some c) f = f c

-- IOManager::addEvent. `fd * 1.5` is cut to an integer.
unfoldable pub add_event : ℕ → Kind → Option ℕ → Caller → Bool → IoManager → Result
add_event fd kind cb caller accepted m =
    let contexts =
      if leb (length m.contexts) fd then context_resize (fd * 3 / 2) m.contexts else m.contexts in
    at_context (get_elem? contexts fd)
      (λ c. add_to fd kind cb caller accepted c (record m { contexts = contexts }))

-- Out of the vector the other calls find no event.
abbrev pub with_context : Option FdContext → IoManager → (FdContext → Result) → Result
with_context none m f = ok false m
with_context (some c) m f = f c

-- The operation that leaves the kernel with these events.
abbrev pub op_for : Event → Op
op_for events = if any events then mod_op else del

-- IOManager::delEvent
unfoldable pub del_from : ℕ → Kind → Bool → IoManager → FdContext → Result
del_from fd kind accepted m c =
    let events = without c.events (mask kind) in
    if not (any (both c.events (mask kind)))
    then ok false m
    else if not accepted
    then ok false m
    else ok true (record m {
      contexts = set m.contexts fd (put_context kind no_context (record c { events = events }));
      pending = decrement m.pending;
      epoll = epoll_ctl (op_for events) fd events m.epoll;
    })

unfoldable pub del_event : ℕ → Kind → Bool → IoManager → Result
del_event fd kind accepted m =
    with_context (get_elem? m.contexts fd) m (del_from fd kind accepted m)

-- A trigger with what follows it: the count goes down, and the context is stored.
unfoldable pub triggered :
    ℕ → Option (FdContext × List (ℕ × Task)) → IoManager → (FdContext → IoManager → Result) → Result
triggered fd none m f = abort
triggered fd (some (c, tasks)) m f = f c (record m {
  contexts = set m.contexts fd c;
  pending = decrement m.pending;
  scheduled = m.scheduled ++ tasks;
})

-- IOManager::cancelEvent
unfoldable pub cancel_from : ℕ → Kind → Bool → IoManager → FdContext → Result
cancel_from fd kind accepted m c =
    let events = without c.events (mask kind) in
    if not (any (both c.events (mask kind)))
    then ok false m
    else if not accepted
    then ok false m
    else triggered fd (trigger_event kind c)
        (record m { epoll = epoll_ctl (op_for events) fd events m.epoll }) (λ c m. ok true m)

unfoldable pub cancel_event : ℕ → Kind → Bool → IoManager → Result
cancel_event fd kind accepted m =
    with_context (get_elem? m.contexts fd) m (cancel_from fd kind accepted m)

-- The two `if`s that trigger the events of a mask, READ first, with what follows them.
unfoldable pub trigger_if :
    Bool → Kind → ℕ → FdContext → IoManager → (FdContext → IoManager → Result) → Result
trigger_if true kind fd c m f = triggered fd (trigger_event kind c) m f
trigger_if false kind fd c m f = f c m

-- IOManager::cancelAll
unfoldable pub cancel_all_from : ℕ → Bool → IoManager → FdContext → Result
cancel_all_from fd accepted m c =
    if not (any c.events)
    then ok false m
    else if not accepted
    then ok false m
    else trigger_if c.events.read reading fd c
        (record m { epoll = epoll_ctl del fd no_event m.epoll })
        (λ c m.
          trigger_if c.events.write writing fd c m
            (λ c m. if any c.events then abort else ok true m))

unfoldable pub cancel_all : ℕ → Bool → IoManager → Result
cancel_all fd accepted m = with_context (get_elem? m.contexts fd) m (cancel_all_from fd accepted m)

-- What epoll_wait reports of a descriptor: EPOLLIN, EPOLLOUT, and EPOLLERR or EPOLLHUP.
pub record Report : Type 0 where
  pub ready : Event
  pub error : Bool

-- The events of a report: an error or a hang-up stands for all that are registered.
abbrev pub real_events : Report → Event → Event
real_events r events = if r.error then either r.ready events else r.ready

-- The body of the loop in `idle` for a report on the descriptor `fd`; the loop's `continue` is a result false.
unfoldable pub handle_from : ℕ → Report → Bool → IoManager → FdContext → Result
handle_from fd r accepted m c =
    let real = real_events r c.events in
    let left = without c.events real in
    if not (any (both c.events real))
    then ok false m
    else if not accepted
    then ok false m
    else trigger_if real.read reading fd c
        (record m { epoll = epoll_ctl (op_for left) fd left m.epoll })
        (λ c m. trigger_if real.write writing fd c m (λ c m. ok true m))

unfoldable pub handle_report : ℕ → Report → Bool → IoManager → Result
handle_report fd r accepted m =
    with_context (get_elem? m.contexts fd) m (handle_from fd r accepted m)
