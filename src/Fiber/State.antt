-- ===== src/Fiber/State.antt =====
-- sylar/fiber.h and sylar/fiber.cc: the fibers as objects on a heap, and the thread locals. A
-- pointer is the index of its fiber; `none` is an assertion that fails, or a null pointer.
use server_demo.Common.{
  ℕ, ◌+◌, ◌-◌, Bool, true, false, ◌||◌, Option, none, some, List, [], ◌∷◌, ◌++◌, ◌==◌, length,
  get_elem?, set, if◌then◌else◌,
}

-- Fiber::State
pub data State : Type 0 where
  init : State
  hold : State
  exec : State
  term : State
  ready : State
  except : State

-- The members of Fiber that its methods decide by. A callback is a number; `stack` tells whether
-- m_stack is set.
pub record Fiber : Type 0 where
  pub id : ℕ
  pub state : State
  pub cb : Option ℕ
  pub stack : Bool

-- The fibers of the process, with s_fiber_id and s_fiber_count.
pub record Fibers : Type 0 where
  pub heap : List Fiber
  pub last_id : ℕ
  pub count : ℕ

-- The thread locals t_fiber and t_threadFiber, and the fiber whose context the thread runs.
pub record Thread : Type 0 where
  pub current : Option ℕ
  pub thread_fiber : Option ℕ
  pub running : ℕ

abbrev pub is_exec : State → Bool
is_exec exec = true
is_exec s = false

abbrev pub is_ready : State → Bool
is_ready ready = true
is_ready s = false

-- `state == TERM || state == EXCEPT`
abbrev pub is_over : State → Bool
is_over term = true
is_over except = true
is_over s = false

abbrev pub is_init : State → Bool
is_init init = true
is_init s = false

abbrev pub state_of : ℕ → Fibers → Option State
state_of p fs = elim (get_elem? fs.heap p) [ none ↦ none | some f ↦ some f.state ]

abbrev pub put : ℕ → Fiber → Fibers → Fibers
put p f fs = record fs { heap = set fs.heap p f }

-- m_state = s
unfoldable pub set_state : ℕ → State → Fibers → Option Fibers
set_state p s fs = elim (get_elem? fs.heap p) [
  | none ↦ none
  | some f ↦ some (put p (record f { state = s }) fs)
]

-- Fiber::Fiber(): the main fiber of a thread. It has no id of its own.
unfoldable pub new_main : Thread → Fibers → Thread × Fibers
new_main t fs = (
  record t { current = some (length fs.heap) },
  record fs {
    heap = fs.heap ++ (record { id = 0; state = exec; cb = none; stack = false } ∷ []);
    count = fs.count + 1;
  },
)

-- Fiber::Fiber(cb): the pointer of the new fiber.
unfoldable pub new_fiber : Option ℕ → Fibers → ℕ × Fibers
new_fiber cb fs = (
  length fs.heap,
  record {
    heap = fs.heap ++ (record { id = fs.last_id + 1; state = init; cb = cb; stack = true } ∷ []);
    last_id = fs.last_id + 1;
    count = fs.count + 1;
  },
)

-- Fiber::reset
unfoldable pub reset : ℕ → Option ℕ → Fibers → Option Fibers
reset p cb fs = elim (get_elem? fs.heap p) [
  | none ↦ none
  | some f ↦
      if f.stack
      then if is_over f.state || is_init f.state
        then some (put p (record f { state = init; cb = cb }) fs)
        else none
      else none
]

-- if(t_fiber == this) SetThis(nullptr)
abbrev pub forget : ℕ → Thread → Thread
forget p t = elim t.current [
  | none ↦ t
  | some q ↦ if q == p then record t { current = none } else t
]

-- Fiber::~Fiber: the assertions, and the count. The heap keeps the object; nothing points to it.
unfoldable pub destroy : ℕ → Thread → Fibers → Option (Thread × Fibers)
destroy p t fs = elim (get_elem? fs.heap p) [
  | none ↦ none
  | some f ↦
      if f.stack
      then if is_over f.state || is_init f.state
        then some (t, record fs { count = fs.count - 1 })
        else none
      else elim f.cb [
        | some cb ↦ none
        | none ↦
            if is_exec f.state then some (forget p t, record fs { count = fs.count - 1 }) else none
      ]
]

-- Fiber::GetThis: the current fiber, which the first call on a thread creates.
unfoldable pub get_this : Thread → Fibers → ℕ × Thread × Fibers
unfolding new_main
get_this t fs = elim t.current [
  | some p ↦ (p, t, fs)
  | none ↦
      let made = new_main t fs in
      (length fs.heap, record made.0 { thread_fiber = some (length fs.heap) }, made.1)
]

-- Fiber::call, on a thread that has its main fiber.
unfoldable pub call : ℕ → Thread → Fibers → Option (Thread × Fibers)
unfolding set_state
call p t fs = elim t.thread_fiber [
  | none ↦ none
  | some m ↦ elim (set_state p exec fs) [
    | none ↦ none
    | some fs' ↦ some (record t { current = some p; running = p }, fs')
  ]
]

-- Fiber::back
unfoldable pub back : Thread → Option Thread
back t = elim t.thread_fiber [
  | none ↦ none
  | some m ↦ some (record t { current = some m; running = m })
]

-- Fiber::swapIn, from the scheduler's main fiber of this thread.
unfoldable pub swap_in : ℕ → Thread → Fibers → Option (Thread × Fibers)
unfolding set_state
swap_in p t fs = elim (state_of p fs) [
  | none ↦ none
  | some s ↦ if is_exec s then none else elim (set_state p exec fs) [
    | none ↦ none
    | some fs' ↦ some (record t { current = some p; running = p }, fs')
  ]
]

-- Fiber::swapOut; `main` is Scheduler::GetMainFiber().
unfoldable pub swap_out : ℕ → Thread → Thread
swap_out main t = record t { current = some main; running = main }

-- The end of MainFunc and CallerMainFunc: the callback returned, or threw.
unfoldable pub finish : ℕ → Fibers → Option Fibers
finish p fs = elim (get_elem? fs.heap p) [
  | none ↦ none
  | some f ↦ some (put p (record f { state = term; cb = none }) fs)
]

unfoldable pub throw : ℕ → Fibers → Option Fibers
unfolding set_state
throw p fs = set_state p except fs
