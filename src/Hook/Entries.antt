-- ===== src/Hook/Entries.antt =====
-- What ioctl and setsockopt make of the calls on a socket that come after them.
use server_demo.Common.{ℕ, ◌≡◌, refl, ap, ◌∙◌, Bool, true, false, some, if◌then◌else◌, arith}
use server_demo.FdManager.Table.{FdCtx, TimeoutType, receive, send, set_timeout, get_timeout}
use server_demo.Hook.Descriptors.{
  Hooks, find_ctx, set_ctx, is_nonblock, choose_nonblock, is_kept, sys_fionbio, fionbio_at, fionbio,
  millis, set_sock_timeout, direct, loop, entry_of, entry_at, do_io_entry,
}
use server_demo.Hook.Flags.{find_ctx-set_ctx, find_ctx-datas, written, is_nonblock-choose}

-- A socket that a thread with hooks uses, and the context that is kept for it.
pub record Hooked (fd a : ℕ) (h : Hooks) : Type 0 where
  pub enabled : h.enabled ≡ true
  pub found : find_ctx fd h ≡ some a
  pub kept : is_kept (h.fds.heap a) ≡ true

do_io_entry-found :
    (fd a : ℕ) (type : TimeoutType) (h : Hooks) (c : FdCtx)
    → h.enabled ≡ true
    → find_ctx fd h ≡ some a
    → h.fds.heap a ≡ c
    → do_io_entry fd type h ≡ entry_of type c
unfolding do_io_entry entry_at
do_io_entry-found fd a type h c on found e = rw (on, found) (ap (entry_of type) e)

entry_of-kept :
    (type : TimeoutType) (c : FdCtx)
    → is_kept c ≡ true
    → entry_of type c ≡ (if c.user_nonblock then direct else loop (get_timeout type c))
unfolding entry_of
entry_of-kept type c k = ground (arith, k)

abbrev pub same_type : TimeoutType → TimeoutType → Bool
same_type receive receive = true
same_type receive send = false
same_type send receive = false
same_type send send = true

get_timeout-set_timeout :
    (type type' : TimeoutType) (v : ℕ) (c : FdCtx)
    → get_timeout type' (set_timeout type v c)
      ≡ (if same_type type type' then v else get_timeout type' c)
unfolding get_timeout set_timeout
get_timeout-set_timeout receive receive v c = refl
get_timeout-set_timeout receive send v c = refl
get_timeout-set_timeout send receive v c = refl
get_timeout-set_timeout send send v c = refl

set_timeout-kept :
    (type : TimeoutType) (v : ℕ) (c : FdCtx) → is_kept (set_timeout type v c) ≡ is_kept c
unfolding set_timeout
set_timeout-kept receive v c = refl
set_timeout-kept send v c = refl

set_timeout-user_nonblock :
    (type : TimeoutType) (v : ℕ) (c : FdCtx)
    → (set_timeout type v c).user_nonblock ≡ c.user_nonblock
unfolding set_timeout
set_timeout-user_nonblock receive v c = refl
set_timeout-user_nonblock send v c = refl

set_sock_timeout-found :
    (fd a : ℕ) (type : TimeoutType) (sec usec : ℕ) (h : Hooks)
    → h.enabled ≡ true
    → find_ctx fd h ≡ some a
    → set_sock_timeout fd type sec usec h
      ≡ set_ctx a (set_timeout type (millis sec usec) (h.fds.heap a)) h
unfolding set_sock_timeout
set_sock_timeout-found fd a type sec usec h on found = rw (on, found) refl

-- After `setsockopt` of a time-out of `sec` seconds and `usec` microseconds, on an open socket
-- with a context, by a thread with hooks, a call in that direction enters the loop of `do_io`
-- with exactly these milliseconds as a uint64_t, also if both are zero, and one in the other
-- direction with the time-out it had; both go to the system if the caller has set O_NONBLOCK.
pub do_io_entry-set_sock_timeout :
    (fd a : ℕ) (type type' : TimeoutType) (sec usec : ℕ) (h : Hooks)
    → Hooked fd a h
    → do_io_entry fd type' (set_sock_timeout fd type sec usec h) ≡ (
        if (h.fds.heap a).user_nonblock
        then direct
        else loop
            (if same_type type type' then millis sec usec else get_timeout type' (h.fds.heap a)))
do_io_entry-set_sock_timeout fd a type type' sec usec h k =
    let c = h.fds.heap a in
    let c' = set_timeout type (millis sec usec) c in
    ap (do_io_entry fd type') (set_sock_timeout-found fd a type sec usec h k.enabled k.found)
    ∙ do_io_entry-found fd a type' (set_ctx a c' h) c' k.enabled
        (find_ctx-set_ctx fd a c' h ∙ k.found) (written h.fds.heap a c')
    ∙ entry_of-kept type' c' (set_timeout-kept type (millis sec usec) c ∙ k.kept)
    ∙ rw
        (
          get_timeout-set_timeout type type' (millis sec usec) c,
          set_timeout-user_nonblock type (millis sec usec) c,
        )
        refl

fionbio-found :
    (fd a : ℕ) (b : Bool) (h : Hooks)
    → Hooked fd a h
    → fionbio fd b h ≡ sys_fionbio fd b (set_ctx a (record (h.fds.heap a) { user_nonblock = b }) h)
unfolding fionbio fionbio_at
fionbio-found fd a b h k = rw k.found (rw k.kept refl)

get_timeout-user_nonblock :
    (type : TimeoutType) (b : Bool) (c : FdCtx)
    → get_timeout type (record c { user_nonblock = b }) ≡ get_timeout type c
unfolding get_timeout
get_timeout-user_nonblock receive b c = refl
get_timeout-user_nonblock send b c = refl

-- After an `ioctl` with FIONBIO on an open socket with a context, by a thread with hooks, the
-- kernel's flag is the argument: with zero `do_io` enters its loop on a socket whose calls block,
-- and else it goes to the system.
pub fionbio_entry :
    (fd a : ℕ) (b : Bool) (type : TimeoutType) (h : Hooks)
    → Hooked fd a h
    → (do_io_entry fd type (fionbio fd b h)
        ≡ (if b then direct else loop (get_timeout type (h.fds.heap a))))
      × (is_nonblock ((fionbio fd b h).flags fd) ≡ b)
fionbio_entry fd a b type h k =
    let c' : FdCtx = record (h.fds.heap a) { user_nonblock = b } in
    let h' : Hooks = sys_fionbio fd b (set_ctx a c' h) in
    let flag : h'.flags fd ≡ choose_nonblock b (h.flags fd) = ground arith in
    (
      ap (do_io_entry fd type) (fionbio-found fd a b h k)
          ∙ do_io_entry-found fd a type h' c' k.enabled (find_ctx-datas fd h h' refl ∙ k.found)
              (written h.fds.heap a c')
          ∙ entry_of-kept type c' k.kept
          ∙ ap (λ (t : ℕ). if b then direct else loop t)
              (get_timeout-user_nonblock type b (h.fds.heap a)),
      ap (λ (h : Hooks). is_nonblock (h.flags fd)) (fionbio-found fd a b h k)
          ∙ ap is_nonblock flag
          ∙ is_nonblock-choose b (h.flags fd),
    )
