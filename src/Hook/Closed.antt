-- ===== src/Hook/Closed.antt =====
-- What close leaves of a descriptor in both tables.
use server_demo.Common.{
  ℕ, ◌≡◌, refl, ap, ◌∙◌, true, Option, none, some, if◌then◌else◌, Bool-cases, inl, inr,
}
use server_demo.FdManager.Table.{TimeoutType}
use server_demo.FdManager.Laws
use server_demo.FdManager.Laws.{lookup, Holds, del-Holds, del-heap}
use server_demo.IoManager.State.{IoManager, no_event, any}
use server_demo.IoManager.Valid
use server_demo.IoManager.Valid.{Changed, events_at}
use server_demo.IoManager.Report.{tasks_at}
use server_demo.IoManager.Ready.{cancel_all-Changed}
use server_demo.Hook.Descriptors.{Hooks, find_ctx, direct, entry_at, do_io_entry}
use server_demo.Hook.Flags.{find_ctx-lookup}
use server_demo.Hook.Close.{Process, close, close_at, cancel_in, del_in, with_iom, with_fds}

-- A thread with hooks and an I/O manager, both tables of which are well-formed, and a descriptor
-- with a context and with an event that is waited for.
pub record InUse (fd : ℕ) (m : IoManager) (s : Process) : Type 0 where
  pub enabled : s.hooks.enabled ≡ true
  pub manager : s.iom ≡ some m
  pub address : ℕ
  pub found : find_ctx fd s.hooks ≡ some address
  pub fds_valid : Laws.IsValid s.hooks.fds
  pub io_valid : Valid.IsValid m
  pub waited_for : any (events_at m fd) ≡ true

pub record Closed (fd : ℕ) (m : IoManager) (s : Process) : Type 0 where
  pub after : Process
  pub closes : close fd true s ≡ some after
  pub manager' : IoManager
  pub holds_manager : after.iom ≡ some manager'
  pub cancelled : Changed fd no_event (tasks_at m fd (events_at m fd)) m manager'
  pub forgotten : Holds fd none s.hooks.fds after.hooks.fds
  pub contexts : after.hooks.fds.heap ≡ s.hooks.fds.heap
  pub passes : (type : TimeoutType) → do_io_entry fd type after.hooks ≡ direct

do_io_entry-forgotten :
    (fd : ℕ) (type : TimeoutType) (h : Hooks)
    → lookup h.fds fd ≡ none
    → do_io_entry fd type h ≡ direct
unfolding do_io_entry entry_at
do_io_entry-forgotten fd type h e =
    let q = find_ctx-lookup fd h ∙ e in
    elim (Bool-cases h.enabled) [ inl on ↦ rw (on, q) refl | inr off ↦ rw off refl ]

-- `close`, by a thread with hooks and an I/O manager, of a descriptor that has a context and a
-- registered event, accepted by the kernel, on well-formed tables: the descriptor has no event
-- any more, exactly the tasks that waited have been handed to their schedulers, both tables are
-- well-formed, the other descriptors have the masks, what waits for their events, and the
-- contexts that they had, no context has changed, and a call on the descriptor goes to the system
-- from then on.
pub close-Closed : (fd : ℕ) (m : IoManager) (s : Process) → InUse fd m s → Closed fd m s
unfolding close
close-Closed fd m s u =
    let (m', cancels, changed) = cancel_all-Changed fd m u.io_valid u.waited_for in
    let (fds, deletes, holds) = del-Holds fd s.hooks.fds u.fds_valid in
    let s' : Process = record { hooks = record s.hooks { fds = fds }; iom = some m' } in
    let steps : close_at (some u.address) fd true s ≡ some s' =
      ap (λ (i : Option IoManager). del_in fd (cancel_in i fd true s)) u.manager
      ∙ ap (λ r. del_in fd (with_iom r s)) cancels
      ∙ ap (λ r. with_fds r (record s { iom = some m' })) deletes in
    record {
      after = s';
      closes =
          ap (λ b. if b then close_at (find_ctx fd s.hooks) fd true s else some s) u.enabled
          ∙ ap (λ (o : Option ℕ). close_at o fd true s) u.found
          ∙ steps;
      manager' = m';
      holds_manager = refl;
      cancelled = changed;
      forgotten = holds;
      contexts = del-heap fd s.hooks.fds deletes;
      passes = λ type. do_io_entry-forgotten fd type s'.hooks holds.this;
    }
