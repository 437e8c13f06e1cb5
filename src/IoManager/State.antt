-- ===== src/IoManager/State.antt =====
-- `IOManager::FdContext`, and the members of `IOManager` that the events are kept in.
use server_demo.Common.{
  ℕ, ◌+◌, ◌-◌, ◌%◌, ◌^◌, Bool, true, false, not, ◌&&◌, ◌||◌, Option, none, some, List, [], ◌∷◌,
  ◌++◌, length, take, replicate, ◌==◌, if◌then◌else◌,
}

-- An `Event` as the masks hold it: READ is the bit 0x1 and WRITE the bit 0x4, and no enumerator has
-- another one.
pub record Event : Type 0 where
  pub read : Bool
  pub write : Bool

abbrev pub no_event : Event
no_event = record { read = false; write = false }

-- The masks' `&`, `|`, `& ~` and the test against NONE.
abbrev pub both : Event → Event → Event
both a b = record { read = a.read && b.read; write = a.write && b.write }

abbrev pub either : Event → Event → Event
either a b = record { read = a.read || b.read; write = a.write || b.write }

abbrev pub without : Event → Event → Event
without a b = record { read = a.read && not b.read; write = a.write && not b.write }

abbrev pub any : Event → Bool
any a = a.read || a.write

-- Which event a call is about: the enumerators that have a context. For NONE `getContext` asserts.
pub data Kind : Type 0 where
  reading writing : Kind

abbrev pub mask : Kind → Event
mask reading = record { read = true; write = false }
mask writing = record { read = false; write = true }

-- What is handed to a scheduler: a callback or a fiber, by its number.
pub data Task : Type 0 where
  callback fiber : ℕ → Task

-- EventContext. A null pointer and an empty function are `none`.
pub record EventContext : Type 0 where
  pub scheduler : Option ℕ
  pub fiber : Option ℕ
  pub cb : Option ℕ

abbrev pub no_context : EventContext
no_context = record { scheduler = none; fiber = none; cb = none }

-- FdContext. `fd` is its index in `m_fdContexts`.
pub record FdContext : Type 0 where
  pub read : EventContext
  pub write : EventContext
  pub events : Event

abbrev pub new_context : FdContext
new_context = record { read = no_context; write = no_context; events = no_event }

-- FdContext::getContext, to read and to write.
abbrev pub get_context : Kind → FdContext → EventContext
get_context reading c = c.read
get_context writing c = c.write

abbrev pub put_context : Kind → EventContext → FdContext → FdContext
put_context reading e c = record c { read = e }
put_context writing e c = record c { write = e }

-- `scheduled` lists what was handed to the schedulers, the latest last. `epoll` is what the kernel
-- has been told to watch.
pub record IoManager : Type 0 where
  pub contexts : List FdContext
  pub pending : ℕ
  pub epoll : ℕ → Option Event
  pub scheduled : List (ℕ × Task)

-- The operations of epoll_ctl, and what one that succeeds makes of the kernel's table.
pub data Op : Type 0 where
  add mod_op del : Op

abbrev pub told : Op → Event → Option Event
told add e = some e
told mod_op e = some e
told del e = none

abbrev pub epoll_ctl : Op → ℕ → Event → (ℕ → Option Event) → ℕ → Option Event
epoll_ctl op fd e epoll x = if x == fd then told op e else epoll x

-- IOManager::contextResize, which is std::vector::resize and fills the gaps.
unfoldable pub context_resize : ℕ → List FdContext → List FdContext
context_resize size xs = take size xs ++ replicate (size - length xs) new_context

-- The constructor's contexts.
unfoldable pub new_manager : IoManager
new_manager = record {
  contexts = context_resize 32 [];
  pending = 0;
  epoll = λ fd. none;
  scheduled = [];
}

-- ++ and -- on m_pendingEventCount, a size_t.
abbrev pub increment : ℕ → ℕ
increment n = (n + 1) % 2 ^ 64

abbrev pub decrement : ℕ → ℕ
decrement n = (n + 2 ^ 64 - 1) % 2 ^ 64

-- FdContext::triggerEvent: the context, and what is handed to the scheduler; `none` where an
-- assertion fails or the scheduler is null. `schedule` takes the function or the fiber out of the
-- context, and queues nothing for an empty one.
abbrev pub tasks : ℕ → Option ℕ → Option ℕ → List (ℕ × Task)
tasks s (some f) o = (s, callback f) ∷ []
tasks s none (some f) = (s, fiber f) ∷ []
tasks s none none = []

abbrev pub used : EventContext → EventContext
used e = record {
  scheduler = none;
  fiber = elim e.cb [ none ↦ none | some f ↦ e.fiber ];
  cb = none;
}

abbrev pub handed : Option ℕ → EventContext → FdContext → Option (FdContext × List (ℕ × Task))
handed none e c = none
handed (some s) e c = some (c, tasks s e.cb e.fiber)

unfoldable pub trigger_event : Kind → FdContext → Option (FdContext × List (ℕ × Task))
trigger_event kind c =
    let e = get_context kind c in
    let c' = put_context kind (used e) (record c { events = without c.events (mask kind) }) in
    if any (both c.events (mask kind)) then handed e.scheduler e c' else none
