-- ===== src/IoManager/Valid.antt =====
-- The invariant of the event tables: contexts, masks, the kernel's table and the count agree.
use server_demo.Common.{
  ℕ, zero, suc, ◌+◌, ◌-◌, ◌%◌, ◌^◌, ◌≤◌, ◌<◌, ◌≡◌, ◌≢◌, refl, sym, ap, ◌∙◌, subst, Bool, true,
  false, not, Option, none, some, List, [], ◌∷◌, ◌++◌, length, get_elem?, set, replicate, All,
  length-set, length-append, length-replicate, take_all, arith, if◌then◌else◌, ◌==◌,
}
use server_demo.IoManager.State.{
  Event, no_event, any, EventContext, no_context, FdContext, new_context, IoManager, Task,
  context_resize, new_manager,
}
use server_demo.IoManager.Events.{is_none}

-- The context of an event that is registered, with one task, or that is not.
abbrev pub Waiting : Bool → EventContext → Type 0
Waiting true e = (is_none e.scheduler ≡ false) × (is_none e.cb ≡ not (is_none e.fiber))
Waiting false e = e ≡ no_context

pub record Agrees (c : FdContext) : Type 0 where
  pub reads : Waiting c.events.read c.read
  pub writes : Waiting c.events.write c.write

-- How many events a mask has, and all masks.
abbrev pub count : Event → ℕ
count e = (if e.read then 1 else 0) + (if e.write then 1 else 0)

abbrev pub total : List FdContext → ℕ
total [] = 0
total (c ∷ cs) = count c.events + total cs

-- What the kernel watches for a mask, and for a descriptor's context.
abbrev pub watched : Event → Option Event
watched e = if any e then some e else none

abbrev pub watched_at : Option FdContext → Option Event
watched_at none = none
watched_at (some c) = watched c.events

pub record IsValid (m : IoManager) : Type 0 where
  pub room : 32 ≤ length m.contexts
  pub agree : All Agrees m.contexts
  pub kernel : (fd : ℕ) → m.epoll fd ≡ watched_at (get_elem? m.contexts fd)
  pub counted : m.pending ≡ total m.contexts % 2 ^ 64

All_at :
    (P : FdContext → Type 0) (c : FdContext) (cs : List FdContext) (i : ℕ)
    → All P cs
    → get_elem? cs i ≡ some c
    → P c
All_at P c [] i h e = absurd (cc)
All_at P c (d ∷ cs) zero h e = subst at_some e h.0
  where
    at_some : Option FdContext → Type 0
    at_some none = Unit
    at_some (some x) = P x
All_at P c (d ∷ cs) (suc i) h e = All_at P c cs i h.1 e

-- A context of a well-formed table agrees with its mask.
pub context-Agrees :
    (m : IoManager) (fd : ℕ) (c : FdContext)
    → IsValid m
    → get_elem? m.contexts fd ≡ some c
    → Agrees c
context-Agrees m fd c v e = All_at Agrees c m.contexts fd v.agree e

All-set :
    (P : FdContext → Type 0) (c : FdContext) (cs : List FdContext) (i : ℕ)
    → All P cs
    → P c
    → All P (set cs i c)
All-set P c [] i h p = tt
All-set P c (d ∷ cs) zero h p = (p, h.1)
All-set P c (d ∷ cs) (suc i) h p = (h.0, All-set P c cs i h.1 p)

total-set :
    (c c' : FdContext) (cs : List FdContext) (i : ℕ)
    → get_elem? cs i ≡ some c
    → total (set cs i c') + count c.events ≡ total cs + count c'.events
total-set c c' [] i e = absurd (cc)
total-set c c' (d ∷ cs) zero e = ground (arith, e)
total-set c c' (d ∷ cs) (suc i) e = omega (arith, total-set c c' cs i e)

pub get_elem?-set :
    (c c' : FdContext) (cs : List FdContext) (i j : ℕ)
    → get_elem? cs i ≡ some c
    → get_elem? (set cs i c') j ≡ (if j == i then some c' else get_elem? cs j)
get_elem?-set c c' [] i j e = absurd (cc)
get_elem?-set c c' (d ∷ cs) zero zero e = refl
get_elem?-set c c' (d ∷ cs) zero (suc j) e = ground arith
get_elem?-set c c' (d ∷ cs) (suc i) zero e = ground arith
get_elem?-set c c' (d ∷ cs) (suc i) (suc j) e = get_elem?-set c c' cs i j e ∙ ground arith

-- What a call makes of the tables: the mask of one descriptor is `events` then, the others are as
-- they were, and `tasks` have gone to the schedulers.
abbrev pub events_of : Option FdContext → Event
events_of none = no_event
events_of (some c) = c.events

abbrev pub events_at : IoManager → ℕ → Event
events_at m fd = events_of (get_elem? m.contexts fd)

-- The context of a descriptor; one that the vector does not reach yet would be new.
abbrev pub context_or_new : Option FdContext → FdContext
context_or_new none = new_context
context_or_new (some c) = c

abbrev pub context_at : IoManager → ℕ → FdContext
context_at m fd = context_or_new (get_elem? m.contexts fd)

pub record Changed (fd : ℕ) (events : Event) (tasks : List (ℕ × Task)) (m m' : IoManager)
    : Type 0 where
  pub this : events_at m' fd ≡ events
  pub others : (j : ℕ) → j ≢ fd → events_at m' j ≡ events_at m j
  pub kept : (j : ℕ) → j ≢ fd → context_at m' j ≡ context_at m j
  pub handed : m'.scheduled ≡ m.scheduled ++ tasks
  pub valid : IsValid m'

-- A context that is replaced by one that agrees, the kernel told and the count adjusted.
pub replaced :
    (fd : ℕ) (c c' : FdContext) (events : Event) (m : IoManager) (p : ℕ) (epoll : ℕ → Option Event)
    (q tasks : List (ℕ × Task))
    → IsValid m
    → get_elem? m.contexts fd ≡ some c
    → c'.events ≡ events
    → Agrees c'
    → ((x : ℕ) → epoll x ≡ (if x == fd then watched events else m.epoll x))
    → p < 2 ^ 64
    → (p + count c.events) % 2 ^ 64 ≡ (m.pending + count events) % 2 ^ 64
    → q ≡ m.scheduled ++ tasks
    → Changed fd events tasks m
        (record { contexts = set m.contexts fd c'; pending = p; epoll = epoll; scheduled = q })
replaced fd c c' events m p epoll q tasks v at e agrees told small counted handed = record {
  this = ap events_of (get_elem?-set c c' m.contexts fd fd at) ∙ here ∙ e;
  others = λ j k. ap events_of (get_elem?-set c c' m.contexts fd j at) ∙ ground (arith, k);
  kept = λ j k. ap context_or_new (get_elem?-set c c' m.contexts fd j at) ∙ ground (arith, k);
  handed = handed;
  valid = record {
    room = omega (arith, length-set m.contexts fd c', v.room);
    agree = All-set Agrees c' m.contexts fd v.agree agrees;
    kernel =
        λ x. told x ∙ kernel_at x ∙ ap watched_at (sym (get_elem?-set c c' m.contexts fd x at));
    counted = omega (
      arith,
      total-set c c' m.contexts fd at,
      ap (λ (e : Event). count e) e,
      v.counted,
      small,
      counted,
    );
  };
}
  where
    here : events_of (if fd == fd then some c' else get_elem? m.contexts fd) ≡ c'.events
    here = ground arith

    kernel_at :
        (x : ℕ)
        → (if x == fd then watched events else m.epoll x)
          ≡ watched_at (if x == fd then some c' else get_elem? m.contexts x)
    kernel_at x = ground (arith, v.kernel x, ap watched e)

total-append : (xs ys : List FdContext) → total (xs ++ ys) ≡ total xs + total ys
total-append [] ys = omega arith
total-append (c ∷ xs) ys = omega (arith, total-append xs ys)

total-replicate : (n : ℕ) → total (replicate n new_context) ≡ 0
total-replicate zero = refl
total-replicate (suc n) = omega (arith, total-replicate n)

pub watched_at-grown :
    (cs : List FdContext) (n j : ℕ)
    → (events_of (get_elem? (cs ++ replicate n new_context) j) ≡ events_of (get_elem? cs j))
      × (watched_at (get_elem? (cs ++ replicate n new_context) j) ≡ watched_at (get_elem? cs j))
watched_at-grown [] zero j = (refl, refl)
watched_at-grown [] (suc n) zero = (refl, refl)
watched_at-grown [] (suc n) (suc j) = watched_at-grown [] n j
watched_at-grown (c ∷ cs) n zero = (refl, refl)
watched_at-grown (c ∷ cs) n (suc j) = watched_at-grown cs n j

context_or_new-grown :
    (cs : List FdContext) (n j : ℕ)
    → context_or_new (get_elem? (cs ++ replicate n new_context) j) ≡ context_or_new (get_elem? cs j)
context_or_new-grown [] zero j = refl
context_or_new-grown [] (suc n) zero = refl
context_or_new-grown [] (suc n) (suc j) = context_or_new-grown [] n j
context_or_new-grown (c ∷ cs) n zero = refl
context_or_new-grown (c ∷ cs) n (suc j) = context_or_new-grown cs n j

pub All-grown :
    (cs : List FdContext) (n : ℕ) → All Agrees cs → All Agrees (cs ++ replicate n new_context)
All-grown [] zero h = tt
All-grown [] (suc n) h = (record { reads = refl; writes = refl }, All-grown [] n tt)
All-grown (c ∷ cs) n h = (h.0, All-grown cs n h.1)

-- The vector that has grown is as good, and has every mask and context that it had.
pub context_resize-IsValid :
    (n : ℕ) (m : IoManager)
    → IsValid m
    → length m.contexts ≤ n
    → IsValid (record m { contexts = context_resize n m.contexts })
      × ((j : ℕ) → events_of (get_elem? (context_resize n m.contexts) j) ≡ events_at m j)
      × ((j : ℕ) → context_or_new (get_elem? (context_resize n m.contexts) j) ≡ context_at m j)
      × (length (context_resize n m.contexts) ≡ n)
unfolding context_resize
context_resize-IsValid n m v h =
    let more = replicate (n - length m.contexts) new_context in
    let size = length-append m.contexts more in
    let count = length-replicate {A = FdContext} (n - length m.contexts) new_context in
    rw (take_all n m.contexts h) (
      record {
        room = omega (arith, size, count, v.room, h);
        agree = All-grown m.contexts (n - length m.contexts) v.agree;
        kernel = λ x. v.kernel x ∙ sym (watched_at-grown m.contexts (n - length m.contexts) x).1;
        counted =
            v.counted
            ∙ ap (λ (t : ℕ). t % 2 ^ 64)
                (omega
                  (arith, total-append m.contexts more, total-replicate (n - length m.contexts)));
      },
      (λ j. (watched_at-grown m.contexts (n - length m.contexts) j).0),
      context_or_new-grown m.contexts (n - length m.contexts),
      omega (arith, size, count, h),
    )

-- A new manager is well-formed.
pub new_manager-IsValid : IsValid new_manager
unfolding new_manager context_resize
new_manager-IsValid = record {
  room = omega arith;
  agree = All-grown [] 32 tt;
  kernel = λ fd. sym (watched_at-grown [] 32 fd).1;
  counted = refl;
}
