-- ===== src/Hook/Close.antt =====
-- socket, accept and close: a descriptor's context comes and goes with it.
use server_demo.Common.{ℕ, Bool, true, Option, none, some, if◌then◌else◌}
use server_demo.Common.Int.{pos}
use server_demo.FdManager.Table
use server_demo.FdManager.Table.{FdManager, System, TimeoutType, out_of_bounds, get, del}
use server_demo.IoManager.State.{IoManager}
use server_demo.IoManager.Events.{Result, ok, abort, cancel_all}
use server_demo.Hook.Descriptors.{Hooks, find_ctx}

-- The thread with its I/O manager, which there is none of on other threads.
pub record Process : Type 0 where
  pub hooks : Hooks
  pub iom : Option IoManager

abbrev pub with_fds : Table.Result → Process → Option Process
with_fds (Table.ok p m) s = some (record s { hooks = record s.hooks { fds = m } })
with_fds out_of_bounds s = none

-- socket, on the descriptor that the system gives, and accept, on the one that do_io gives; `none`
-- is a vector that is indexed out of its bounds.
unfoldable pub adopt : System → ℕ → Process → Option Process
adopt stat fd s = with_fds (get stat (pos fd) true s.hooks.fds) s

unfoldable pub socket : System → Option ℕ → Process → Option Process
socket stat none s = some s
socket stat (some fd) s = if s.hooks.enabled then adopt stat fd s else some s

-- The part of close before the system's call; `accepted` says whether the kernel takes the
-- epoll_ctl, and `none` is a failed assertion.
abbrev pub with_iom : Result → Process → Option Process
with_iom (ok b m) s = some (record s { iom = some m })
with_iom abort s = none

abbrev pub cancel_in : Option IoManager → ℕ → Bool → Process → Option Process
cancel_in none fd accepted s = some s
cancel_in (some m) fd accepted s = with_iom (cancel_all fd accepted m) s

abbrev pub del_in : ℕ → Option Process → Option Process
del_in fd none = none
del_in fd (some s) = with_fds (del (pos fd) s.hooks.fds) s

abbrev pub close_at : Option ℕ → ℕ → Bool → Process → Option Process
close_at none fd accepted s = some s
close_at (some a) fd accepted s = del_in fd (cancel_in s.iom fd accepted s)

unfoldable pub close : ℕ → Bool → Process → Option Process
close fd accepted s =
    if s.hooks.enabled then close_at (find_ctx fd s.hooks) fd accepted s else some s
