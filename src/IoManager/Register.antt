-- ===== src/IoManager/Register.antt =====
-- What `addEvent` does to well-formed tables.
use server_demo.Common.{
  ℕ, zero, suc, ◌+◌, ◌*◌, ◌/◌, ◌<◌, ◌≡◌, inl, inr, refl, sym, ap, ◌∙◌, subst, Bool, true, false,
  Option, none, some, List, [], ◌∷◌, length, get_elem?, set, append-nil, arith, leb, leb→le,
  leb-false, if◌then◌else◌, Bool-cases,
}
use server_demo.IoManager.State.{
  Event, both, either, any, Kind, reading, writing, mask, EventContext, FdContext, get_context,
  put_context, IoManager, add, mod_op, epoll_ctl, context_resize, increment,
}
use server_demo.IoManager.Events.{
  ok, Caller, is_none, filled, may_fill, add_to, at_context, add_event,
}
use server_demo.IoManager.Valid.{context_or_new, context_at}
use server_demo.IoManager.Valid.{
  Agrees, count, IsValid, context-Agrees, events_of, events_at, get_elem?-set, Changed, replaced,
  context_resize-IsValid,
}

-- Whether an event is registered.
abbrev pub has : Kind → Event → Bool
has reading e = e.read
has writing e = e.write

pub any-both : (kind : Kind) (e : Event) → any (both e (mask kind)) ≡ has kind e
any-both reading e = ground arith
any-both writing e = ground arith

-- The context that `addEvent` stores.
abbrev added_context : Kind → Option ℕ → Caller → FdContext → FdContext
added_context kind cb caller c =
    put_context kind (filled caller cb) (record c { events = either c.events (mask kind) })

record Fills (kind : Kind) (cb : Option ℕ) (caller : Caller) (c : FdContext) : Type 0 where
  pub agrees : Agrees (added_context kind cb caller c)
  pub free : may_fill caller cb (get_context kind c) ≡ true
  pub events : (added_context kind cb caller c).events ≡ either c.events (mask kind)
  pub one_more : count (either c.events (mask kind)) ≡ count c.events + 1
  pub some_event : any (either c.events (mask kind)) ≡ true

fills :
    (kind : Kind) (cb : Option ℕ) (caller : Caller) (c : FdContext)
    → Agrees c
    → is_none caller.scheduler ≡ false
    → caller.exec ≡ true
    → has kind c.events ≡ false
    → Fills kind cb caller c
fills reading none caller c a s x h = record {
  agrees = record { reads = ground (arith, s); writes = ground (arith, a.writes) };
  free = ground (arith, a.reads, h, x);
  events = refl;
  one_more = ground (arith, h);
  some_event = ground arith;
}
fills reading (some f) caller c a s x h = record {
  agrees = record { reads = ground (arith, s); writes = ground (arith, a.writes) };
  free = ground (arith, a.reads, h, x);
  events = refl;
  one_more = ground (arith, h);
  some_event = ground arith;
}
fills writing none caller c a s x h = record {
  agrees = record { reads = ground (arith, a.reads); writes = ground (arith, s) };
  free = ground (arith, a.writes, h, x);
  events = refl;
  one_more = ground (arith, h);
  some_event = ground arith;
}
fills writing (some f) caller c a s x h = record {
  agrees = record { reads = ground (arith, a.reads); writes = ground (arith, s) };
  free = ground (arith, a.writes, h, x);
  events = refl;
  one_more = ground (arith, h);
  some_event = ground arith;
}

-- What waits for an event of a descriptor.
abbrev pub waiting_at : IoManager → ℕ → Kind → EventContext
waiting_at m fd kind = get_context kind (context_or_new (get_elem? m.contexts fd))

pub get_context-put_context :
    (kind : Kind) (e : EventContext) (c : FdContext) → get_context kind (put_context kind e c) ≡ e
get_context-put_context reading e c = refl
get_context-put_context writing e c = refl

pub waiting-set :
    (kind : Kind) (fd : ℕ) (c c' : FdContext) (cs : List FdContext)
    → get_elem? cs fd ≡ some c
    → get_context kind (context_or_new (get_elem? (set cs fd c') fd)) ≡ get_context kind c'
waiting-set kind fd c c' cs e =
    ap (λ o. get_context kind (context_or_new o)) (get_elem?-set c c' cs fd fd e) ∙ ground arith

add_to-Changed :
    (fd : ℕ) (kind : Kind) (cb : Option ℕ) (caller : Caller) (m : IoManager) (c : FdContext)
    → IsValid m
    → get_elem? m.contexts fd ≡ some c
    → is_none caller.scheduler ≡ false
    → caller.exec ≡ true
    → has kind c.events ≡ false
    → (m' : IoManager) × (add_to fd kind cb caller true c m ≡ ok true m')
      × Changed fd (either c.events (mask kind)) [] m m'
      × (waiting_at m' fd kind ≡ filled caller cb)
unfolding add_to
add_to-Changed fd kind cb caller m c v at s x h =
    let f = fills kind cb caller c (context-Agrees m fd c v at) s x h in
    let events = either c.events (mask kind) in
    let op = if any c.events then mod_op else add in
    let c' = added_context kind cb caller c in
    let contexts = set m.contexts fd c' in
    let epoll = epoll_ctl op fd events m.epoll in
    (
      record m { contexts = contexts; pending = increment m.pending; epoll = epoll },
      rw (any-both kind c.events, h, f.free) (ground arith),
      replaced fd c c' events m (increment m.pending) epoll m.scheduled [] v at f.events f.agrees
          (λ x. ground (arith, f.some_event)) (omega arith) (omega (arith, f.one_more))
          (sym (append-nil m.scheduled)),
      waiting-set kind fd c c' m.contexts at ∙ get_context-put_context kind (filled caller cb) _,
    )

pub get_elem?_in :
    (cs : List FdContext) (i : ℕ) → i < length cs → (c : FdContext) × (get_elem? cs i ≡ some c)
get_elem?_in [] i h = absurd (omega (arith, h))
get_elem?_in (c ∷ cs) zero h = (c, refl)
get_elem?_in (c ∷ cs) (suc i) h = get_elem?_in cs i (omega (arith, h))

-- The vector that `addEvent` works on: well-formed, with all masks, and wide enough.
record Wide (fd : ℕ) (contexts : List FdContext) (m : IoManager) : Type 0 where
  pub valid : IsValid (record m { contexts = contexts })
  pub masks : (j : ℕ) → events_of (get_elem? contexts j) ≡ events_at m j
  pub same : (j : ℕ) → context_or_new (get_elem? contexts j) ≡ context_at m j
  pub inside : fd < length contexts

abbrev grown : ℕ → IoManager → List FdContext
grown fd m =
    if leb (length m.contexts) fd then context_resize (fd * 3 / 2) m.contexts else m.contexts

grown-Wide : (fd : ℕ) (m : IoManager) → IsValid m → Wide fd (grown fd m) m
grown-Wide fd m v = elim (Bool-cases (leb (length m.contexts) fd)) [
  | inl grows ↦
      let le = leb→le (length m.contexts) fd grows in
      let (valid, masks, same, size) =
        context_resize-IsValid (fd * 3 / 2) m v (omega (arith, le)) in
      subst (λ cs. Wide fd cs m)
        (ap (λ b. if b then context_resize (fd * 3 / 2) m.contexts else m.contexts) (sym grows))
        (record {
          valid = valid;
          masks = masks;
          same = same;
          inside = omega (arith, size, le, v.room);
        })
  | inr fits ↦
      subst (λ cs. Wide fd cs m)
        (ap (λ b. if b then context_resize (fd * 3 / 2) m.contexts else m.contexts) (sym fits))
        (record {
          valid = record { room = v.room; agree = v.agree; kernel = v.kernel; counted = v.counted };
          masks = λ j. refl;
          same = λ j. refl;
          inside = leb-false (length m.contexts) fd fits;
        })
]

-- `addEvent` of an event that is not registered, by a caller that runs in a fiber under a
-- scheduler, accepted by the kernel, on well-formed tables, returns 0 for every descriptor that
-- is not negative: the event is registered with the callback, or else the calling fiber, waiting
-- for it; neither another mask nor what waits for it has changed, nothing has been scheduled, and
-- the tables (contexts, kernel, count of pending events) are well-formed.
pub add_event-Changed :
    (fd : ℕ) (kind : Kind) (cb : Option ℕ) (caller : Caller) (m : IoManager)
    → IsValid m
    → is_none caller.scheduler ≡ false
    → caller.exec ≡ true
    → has kind (events_at m fd) ≡ false
    → (m' : IoManager) × (add_event fd kind cb caller true m ≡ ok true m')
      × Changed fd (either (events_at m fd) (mask kind)) [] m m'
      × (waiting_at m' fd kind ≡ filled caller cb)
unfolding add_event
add_event-Changed fd kind cb caller m v s x h =
    let w = grown-Wide fd m v in
    let (c, at) = get_elem?_in (grown fd m) fd w.inside in
    let same : events_at m fd ≡ c.events = sym (w.masks fd) ∙ ap events_of at in
    let (m', returns, changed, waits) =
      add_to-Changed fd kind cb caller (record m { contexts = grown fd m }) c w.valid at s x
        (sym (ap (has kind) same) ∙ h) in
    (
      m',
      ap
            (λ o.
              at_context o
                (λ c. add_to fd kind cb caller true c (record m { contexts = grown fd m })))
            at
          ∙ returns,
      record {
        this = changed.this ∙ ap (λ e. either e (mask kind)) (sym same);
        others = λ j k. changed.others j k ∙ w.masks j;
        kept = λ j k. changed.kept j k ∙ w.same j;
        handed = changed.handed;
        valid = changed.valid;
      },
      waits,
    )
