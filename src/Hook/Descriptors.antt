-- ===== src/Hook/Descriptors.antt =====
-- The hooked calls that act on a descriptor at once: the tests of do_io, fcntl, ioctl, setsockopt.
-- A descriptor is not negative; an int is its 32 bits.
use server_demo.Common.{
  ℕ, ◌+◌, ◌-◌, ◌*◌, ◌/◌, ◌%◌, ◌^◌, Bool, true, false, not, ◌||◌, Option, none, some, ◌==◌,
  if◌then◌else◌,
}
use server_demo.Common.Int.{pos}
use server_demo.FdManager.Table.{
  FdCtx, System, FdManager, TimeoutType, Result, ok, out_of_bounds, get, write_heap, set_timeout,
  get_timeout,
}

-- t_hook_enable, FdMgr, and the flags that the kernel keeps for each descriptor.
pub record Hooks : Type 0 where
  pub enabled : Bool
  pub fds : FdManager
  pub flags : ℕ → ℕ

-- `get` that does not create asks the system nothing.
abbrev pub unasked : System
unasked = record { stat = none; o_nonblock = false }

abbrev pub pointer : Result → Option ℕ
pointer (ok p m) = p
pointer out_of_bounds = none

abbrev pub find_ctx : ℕ → Hooks → Option ℕ
find_ctx fd h = pointer (get unasked (pos fd) false h.fds)

abbrev pub set_ctx : ℕ → FdCtx → Hooks → Hooks
set_ctx a c h = record h { fds = record h.fds { heap = write_heap h.fds.heap a c } }

-- O_NONBLOCK, and an int with and without it.
abbrev pub is_nonblock : ℕ → Bool
is_nonblock arg = arg / 2048 % 2 == 1

abbrev pub with_nonblock : ℕ → ℕ
with_nonblock arg = if is_nonblock arg then arg else arg + 2048

abbrev pub without_nonblock : ℕ → ℕ
without_nonblock arg = if is_nonblock arg then arg - 2048 else arg

abbrev pub choose_nonblock : Bool → ℕ → ℕ
choose_nonblock b arg = if b then with_nonblock arg else without_nonblock arg

-- A context of which fcntl and ioctl keep the flags.
abbrev pub is_kept : FdCtx → Bool
is_kept c = if c.is_closed then false else c.is_socket

-- The kernel's F_SETFL: the flags as they were and the argument give the new flags, or an error.
abbrev pub Kernel : Type 0
Kernel = ℕ → ℕ → Option ℕ

abbrev pub put_flags : ℕ → Option ℕ → Hooks → Bool × Hooks
put_flags fd none h = (false, h)
put_flags fd (some v) h = (true, record h { flags = λ d. if d == fd then v else h.flags d })

abbrev pub sys_set_fl : Kernel → ℕ → ℕ → Hooks → Bool × Hooks
sys_set_fl kernel fd arg h = put_flags fd (kernel (h.flags fd) arg) h

-- fcntl with F_SETFL: whether it succeeds.
unfoldable pub set_fl_at : Option ℕ → Kernel → ℕ → ℕ → Hooks → Bool × Hooks
set_fl_at none kernel fd arg h = sys_set_fl kernel fd arg h
set_fl_at (some a) kernel fd arg h =
    let c = h.fds.heap a in
    if is_kept c
    then sys_set_fl kernel fd (choose_nonblock c.sys_nonblock arg)
        (set_ctx a (record c { user_nonblock = is_nonblock arg }) h)
    else sys_set_fl kernel fd arg h

unfoldable pub set_fl : Kernel → ℕ → ℕ → Hooks → Bool × Hooks
set_fl kernel fd arg h = set_fl_at (find_ctx fd h) kernel fd arg h

-- fcntl with F_GETFL of a descriptor that the kernel knows.
unfoldable pub get_fl_at : Option ℕ → ℕ → Hooks → ℕ
get_fl_at none fd h = h.flags fd
get_fl_at (some a) fd h =
    let c = h.fds.heap a in
    if is_kept c then choose_nonblock c.user_nonblock (h.flags fd) else h.flags fd

unfoldable pub get_fl : ℕ → Hooks → ℕ
get_fl fd h = get_fl_at (find_ctx fd h) fd h

-- ioctl with FIONBIO; the kernel sets O_NONBLOCK to the argument.
abbrev pub sys_fionbio : ℕ → Bool → Hooks → Hooks
sys_fionbio fd b h = record h {
  flags = λ d. if d == fd then choose_nonblock b (h.flags d) else h.flags d;
}

unfoldable pub fionbio_at : Option ℕ → ℕ → Bool → Hooks → Hooks
fionbio_at none fd b h = sys_fionbio fd b h
fionbio_at (some a) fd b h =
    let c = h.fds.heap a in
    if is_kept c
    then sys_fionbio fd b (set_ctx a (record c { user_nonblock = b }) h)
    else sys_fionbio fd b h

unfoldable pub fionbio : ℕ → Bool → Hooks → Hooks
fionbio fd b h = fionbio_at (find_ctx fd h) fd b h

-- A timeval as a uint64_t of milliseconds.
abbrev pub millis : ℕ → ℕ → ℕ
millis sec usec = (sec * 1000 + usec / 1000) % 2 ^ 64

-- setsockopt with SO_RCVTIMEO or SO_SNDTIMEO, before it calls the system's.
abbrev pub set_timeout_at : Option ℕ → TimeoutType → ℕ → Hooks → Hooks
set_timeout_at none type v h = h
set_timeout_at (some a) type v h = set_ctx a (set_timeout type v (h.fds.heap a)) h

unfoldable pub set_sock_timeout : ℕ → TimeoutType → ℕ → ℕ → Hooks → Hooks
set_sock_timeout fd type sec usec h =
    if h.enabled then set_timeout_at (find_ctx fd h) type (millis sec usec) h else h

-- What do_io does first: it calls the system once, fails with EBADF, or enters its loop with a
-- time-out.
pub data Entry : Type 0 where
  direct : Entry
  bad_fd : Entry
  loop : ℕ → Entry

unfoldable pub entry_of : TimeoutType → FdCtx → Entry
entry_of type c =
    if c.is_closed
    then bad_fd
    else if not c.is_socket || c.user_nonblock
    then direct
    else loop (get_timeout type c)

unfoldable pub entry_at : Option ℕ → TimeoutType → Hooks → Entry
entry_at none type h = direct
entry_at (some a) type h = entry_of type (h.fds.heap a)

unfoldable pub do_io_entry : ℕ → TimeoutType → Hooks → Entry
do_io_entry fd type h = if h.enabled then entry_at (find_ctx fd h) type h else direct
