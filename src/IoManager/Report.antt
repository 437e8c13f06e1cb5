-- ===== src/IoManager/Report.antt =====
-- The triggers of both events of a descriptor, and the body of `idle`'s loop, on well-formed tables.
use server_demo.Common.{
  ℕ, zero, suc, ◌≡◌, refl, sym, ap, ◌∙◌, subst, inl, inr, Bool, true, false, ◌||◌, Option, some,
  List, [], ◌∷◌, ◌++◌, get_elem?, set, append-nil, append_assoc, arith, if◌then◌else◌, ◌==◌,
  Option-cases,
}
use server_demo.IoManager.State.{
  Event, no_event, both, without, any, Kind, reading, writing, Task, EventContext, FdContext,
  get_context, IoManager, told, epoll_ctl, decrement,
}
use server_demo.IoManager.Events.{
  Result, ok, op_for, triggered, trigger_if, Report, real_events, handle_from,
}
use server_demo.IoManager.Valid.{
  Agrees, count, watched, IsValid, context-Agrees, events_of, events_at, Changed, replaced,
}
use server_demo.IoManager.Register.{has, waiting_at}
use server_demo.IoManager.Release.{released_context, task_of, releases, told-op_for}

-- A trigger under an `if`: what is left of the context, what is handed over, and the state.
abbrev pub release_if : Bool → Kind → FdContext → FdContext
release_if true kind c = released_context kind c
release_if false kind c = c

abbrev pub task_if : Bool → EventContext → List (ℕ × Task)
task_if true e = task_of e
task_if false e = []

abbrev pub step : Bool → Kind → ℕ → FdContext → IoManager → IoManager
step true kind fd c m = record m {
  contexts = set m.contexts fd (released_context kind c);
  pending = decrement m.pending;
  scheduled = m.scheduled ++ task_of (get_context kind c);
}
step false kind fd c m = m

pub trigger_if_lem :
    (b : Bool) (kind : Kind) (fd : ℕ) (c : FdContext) (m : IoManager)
    (f : FdContext → IoManager → Result)
    → Agrees c
    → (b ≡ true → has kind c.events ≡ true)
    → trigger_if b kind fd c m f ≡ f (release_if b kind c) (step b kind fd c m)
unfolding trigger_if triggered
trigger_if_lem true kind fd c m f a h = rw (releases kind c a (h refl)).triggers refl
trigger_if_lem false kind fd c m f a h = refl

pub release_if-Agrees :
    (b : Bool) (kind : Kind) (c : FdContext)
    → Agrees c
    → (b ≡ true → has kind c.events ≡ true)
    → Agrees (release_if b kind c)
release_if-Agrees true kind c a h = (releases kind c a (h refl)).agrees
release_if-Agrees false kind c a h = a

set-set : (cs : List FdContext) (i : ℕ) (c d : FdContext) → set (set cs i c) i d ≡ set cs i d
set-set [] i c d = refl
set-set (x ∷ cs) zero c d = refl
set-set (x ∷ cs) (suc i) c d = ap (◌∷◌ x) (set-set cs i c d)

-- The two triggers, once the kernel watches what is left.
abbrev pub stepped : Bool → Bool → ℕ → FdContext → IoManager → IoManager
stepped r w fd c m = step w writing fd (release_if r reading c) (step r reading fd c m)

pub stepped-Changed :
    (r w : Bool) (fd : ℕ) (c : FdContext) (m : IoManager) (epoll : ℕ → Option Event)
    → IsValid m
    → get_elem? m.contexts fd ≡ some c
    → (r ≡ true → c.events.read ≡ true)
    → (w ≡ true → c.events.write ≡ true)
    → (r || w) ≡ true
    → ((x : ℕ)
        → epoll x ≡ (
            if x == fd
            then watched (without c.events (record { read = r; write = w }))
            else m.epoll x))
    → Changed fd
        (without c.events (record { read = r; write = w }))
        (task_if r c.read ++ task_if w c.write)
        m
        (stepped r w fd c (record m { epoll = epoll }))
stepped-Changed false false fd c m epoll v at hr hw any told = absurd (cc)
stepped-Changed true false fd c m epoll v at hr hw any told =
    let r = releases reading c (context-Agrees m fd c v at) (hr refl) in
    replaced fd c (released_context reading c) _ m (decrement m.pending) epoll
      (m.scheduled ++ task_of c.read) _ v at r.events r.agrees told (omega arith)
      (omega (arith, r.one_less)) (ap (◌++◌ m.scheduled) (sym (append-nil (task_of c.read))))
stepped-Changed false true fd c m epoll v at hr hw any told =
    let r = releases writing c (context-Agrees m fd c v at) (hw refl) in
    replaced fd c (released_context writing c) _ m (decrement m.pending) epoll
      (m.scheduled ++ task_of c.write) _ v at r.events r.agrees told (omega arith)
      (omega (arith, r.one_less)) refl
stepped-Changed true true fd c m epoll v at hr hw any told =
    let one = releases reading c (context-Agrees m fd c v at) (hr refl) in
    let first = released_context reading c in
    let two = releases writing first one.agrees (ground (arith, hw refl)) in
    let second = released_context writing first in
    let all : Event = record { read = true; write = true } in
    let left : second.events ≡ without c.events all = ground arith in
    subst
      (λ cs. Changed fd (without c.events all) (task_of c.read ++ task_of c.write) m (record {
        contexts = cs;
        pending = decrement (decrement m.pending);
        epoll = epoll;
        scheduled = (m.scheduled ++ task_of c.read) ++ task_of c.write;
      }))
      (sym (set-set m.contexts fd first second))
      (replaced fd c second (without c.events all) m (decrement (decrement m.pending)) epoll _ _ v
        at left two.agrees told (omega arith)
        (omega (arith, one.one_less, two.one_less, ap (λ (e : Event). count e) left))
        (append_assoc m.scheduled (task_of c.read) (task_of c.write)))

-- Both triggers, where they are for registered events.
pub triggers_both :
    (r w : Bool) (fd : ℕ) (c : FdContext) (m : IoManager) (f : FdContext → IoManager → Result)
    → Agrees c
    → (r ≡ true → c.events.read ≡ true)
    → (w ≡ true → c.events.write ≡ true)
    → trigger_if r reading fd c m (λ c m. trigger_if w writing fd c m f)
      ≡ f (release_if w writing (release_if r reading c)) (stepped r w fd c m)
triggers_both r w fd c m f a hr hw =
    trigger_if_lem r reading fd c m (λ c m. trigger_if w writing fd c m f) a hr
    ∙ trigger_if_lem w writing fd (release_if r reading c) (step r reading fd c m) f
        (release_if-Agrees r reading c a hr) (still_written r)
  where
    still_written : (r : Bool) → w ≡ true → (release_if r reading c).events.write ≡ true
    still_written true h = ground (arith, hw h)
    still_written false h = hw h

-- The tasks that wait for the events of a mask, the reader first.
abbrev pub tasks_at : IoManager → ℕ → Event → List (ℕ × Task)
tasks_at m fd e =
    task_if e.read (waiting_at m fd reading) ++ task_if e.write (waiting_at m fd writing)

real_read :
    (e : Event) (r : Report)
    → (r.ready.read ≡ true → e.read ≡ true)
    → (real_events r e).read ≡ true
    → e.read ≡ true
real_read e r h k = ground (arith, h, k)

real_write :
    (e : Event) (r : Report)
    → (r.ready.write ≡ true → e.write ≡ true)
    → (real_events r e).write ≡ true
    → e.write ≡ true
real_write e r h k = ground (arith, h, k)

some_real : (e real : Event) → any (both e real) ≡ true → (real.read || real.write) ≡ true
some_real e real h = ground (arith, h)

pub handle_from-Changed :
    (fd : ℕ) (r : Report) (m : IoManager) (c : FdContext)
    → IsValid m
    → get_elem? m.contexts fd ≡ some c
    → (r.ready.read ≡ true → c.events.read ≡ true)
    → (r.ready.write ≡ true → c.events.write ≡ true)
    → any (both c.events (real_events r c.events)) ≡ true
    → (m' : IoManager) × (handle_from fd r true m c ≡ ok true m')
      × Changed fd
          (without c.events (real_events r c.events))
          (task_if (real_events r c.events).read c.read
            ++ task_if (real_events r c.events).write c.write)
          m
          m'
unfolding handle_from
handle_from-Changed fd r m c v at hr hw hit =
    let real = real_events r c.events in
    let left = without c.events real in
    let epoll = epoll_ctl (op_for left) fd left m.epoll in
    let reads : real.read ≡ true → c.events.read ≡ true = real_read c.events r hr in
    let writes : real.write ≡ true → c.events.write ≡ true = real_write c.events r hw in
    (
      stepped real.read real.write fd c (record m { epoll = epoll }),
      rw hit (
          triggers_both real.read real.write fd c (record m { epoll = epoll }) (λ c m. ok true m)
            (context-Agrees m fd c v at) reads writes),
      stepped-Changed real.read real.write fd c m epoll v at reads writes
          (some_real c.events real hit) (λ x. ground (arith, told-op_for left)),
    )

no_event-any : any no_event ≡ true → ⊥
no_event-any h = cc

pub registered_at :
    (fd : ℕ) (m : IoManager)
    → any (events_at m fd) ≡ true
    → (c : FdContext) × (get_elem? m.contexts fd ≡ some c)
registered_at fd m h = elim (Option-cases (get_elem? m.contexts fd)) [
  | inl out ↦ absurd (no_event-any (sym (ap (λ o. any (events_of o)) out) ∙ h))
  | inr found ↦ found
]
