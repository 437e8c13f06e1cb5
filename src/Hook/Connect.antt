-- ===== src/Hook/Connect.antt =====
-- connect_with_timeout and connect. An errno is its number on Linux.
use server_demo.Common.{ℕ, Bool, not, ◌&&◌, Option, none, some, ◌==◌, if◌then◌else◌}
use server_demo.FdManager.Table.{FdCtx, no_timeout}
use server_demo.Hook.Descriptors.{Hooks, find_ctx, Entry, direct, bad_fd, loop}

-- The tests at the start.
unfoldable pub connect_entry_of : ℕ → FdCtx → Entry
connect_entry_of timeout c =
    if c.is_closed
    then bad_fd
    else if not c.is_socket
    then direct
    else if c.user_nonblock
    then direct
    else loop timeout

unfoldable pub connect_entry_at : Option ℕ → ℕ → Hooks → Entry
connect_entry_at none timeout h = bad_fd
connect_entry_at (some a) timeout h = connect_entry_of timeout (h.fds.heap a)

unfoldable pub connect_entry : ℕ → ℕ → Hooks → Entry
connect_entry fd timeout h =
    if h.enabled then connect_entry_at (find_ctx fd h) timeout h else direct

-- What a system call or `connect` returns: a value other than -1, or -1 with an errno.
pub data Returned : Type 0 where
  value : ℕ → Returned
  error : ℕ → Returned

abbrev pub einprogress : ℕ
einprogress = 115

abbrev pub etimedout : ℕ
etimedout = 110

abbrev pub ebadf : ℕ
ebadf = 9

-- What the calls behind the tests meet: what connect_f returns, whether addEvent succeeds, whether
-- the callback of the timer, if there is one, has run by the time the fiber runs again, and what
-- getsockopt tells, an error or the value of SO_ERROR.
pub record World : Type 0 where
  pub connects : Returned
  pub adds : Bool
  pub fires : Bool
  pub option : Returned

unfoldable pub ask : Returned → Returned
ask (error e) = error e
ask (value v) = if v == 0 then value 0 else error v

-- The timer is added if there is a time-out, and its callback sets the flag; the flag is looked at
-- where addEvent has succeeded.
abbrev pub has_timer : ℕ → Bool
has_timer timeout = not (timeout == no_timeout)

abbrev pub cancelled : ℕ → World → Bool
cancelled timeout w = has_timer timeout && w.fires

unfoldable pub wait_for : ℕ → World → Returned
wait_for timeout w = if w.adds && cancelled timeout w then error etimedout else ask w.option

unfoldable pub connect_loop : ℕ → Returned → World → Returned
connect_loop timeout (value v) w = value v
connect_loop timeout (error e) w = if e == einprogress then wait_for timeout w else error e

-- connect_with_timeout
unfoldable pub connect_by : Entry → World → Returned
connect_by direct w = w.connects
connect_by bad_fd w = error ebadf
connect_by (loop timeout) w = connect_loop timeout w.connects w

unfoldable pub connect_with_timeout : ℕ → ℕ → Hooks → World → Returned
connect_with_timeout fd timeout h w = connect_by (connect_entry fd timeout h) w
