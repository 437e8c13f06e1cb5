-- ===== src/FdManager/Table.antt =====
-- `FdCtx` and `FdManager`. A context is a shared object: the manager's vector holds its address.
use server_demo.Common.{
  ℕ, suc, ◌-◌, ◌*◌, ◌/◌, ◌^◌, Bool, true, false, Option, none, some, List, ◌++◌, length, get_elem?,
  set, take, replicate, leb, ltb, ◌==◌, if◌then◌else◌,
}
use server_demo.Common.Int.{ℤ, pos, negsuc}

pub record FdCtx : Type 0 where
  pub is_init : Bool
  pub is_socket : Bool
  pub sys_nonblock : Bool
  pub user_nonblock : Bool
  pub is_closed : Bool
  pub fd : ℕ
  pub recv_timeout : ℕ
  pub send_timeout : ℕ

-- -1 as a uint64_t.
abbrev pub no_timeout : ℕ
no_timeout = 2 ^ 64 - 1

-- What the system says of a descriptor: `stat` is none where fstat fails, and otherwise tells a
-- socket; `o_nonblock` is the flag of F_GETFL.
pub record System : Type 0 where
  pub stat : Option Bool
  pub o_nonblock : Bool

-- What fstat tells `init`: whether it succeeds, and whether it finds a socket.
abbrev pub is_stat : Option Bool → Bool
is_stat none = false
is_stat (some socket) = true

abbrev pub is_sock : Option Bool → Bool
is_sock none = false
is_sock (some socket) = socket

-- FdCtx::init: the context, and the system's flag behind it.
unfoldable pub init : System → FdCtx → FdCtx × Bool
init s c = if c.is_init then (c, s.o_nonblock) else (
  record c {
    recv_timeout = no_timeout;
    send_timeout = no_timeout;
    is_init = is_stat s.stat;
    is_socket = is_sock s.stat;
    sys_nonblock = is_sock s.stat;
    user_nonblock = false;
    is_closed = false;
  },
  if is_sock s.stat then true else s.o_nonblock,
)

-- The constructor.
unfoldable pub new_ctx : System → ℕ → FdCtx × Bool
new_ctx s fd = init s (record {
  is_init = false;
  is_socket = false;
  sys_nonblock = false;
  user_nonblock = false;
  is_closed = false;
  fd = fd;
  recv_timeout = no_timeout;
  send_timeout = no_timeout;
})

-- setTimeout and getTimeout: SO_RCVTIMEO, or any other type.
pub data TimeoutType : Type 0 where
  receive send : TimeoutType

unfoldable pub set_timeout : TimeoutType → ℕ → FdCtx → FdCtx
set_timeout receive v c = record c { recv_timeout = v }
set_timeout send v c = record c { send_timeout = v }

unfoldable pub get_timeout : TimeoutType → FdCtx → ℕ
get_timeout receive c = c.recv_timeout
get_timeout send c = c.send_timeout

-- `datas` holds addresses of `heap`, or null pointers; `next_address` is where the next context will stand.
pub record FdManager : Type 0 where
  pub datas : List (Option ℕ)
  pub heap : ℕ → FdCtx
  pub next_address : ℕ

unfoldable pub new_manager : (ℕ → FdCtx) → FdManager
new_manager heap = record { datas = replicate 64 none; heap = heap; next_address = 0 }

-- std::vector::resize
abbrev pub resize : ℕ → List (Option ℕ) → List (Option ℕ)
resize n xs = take n xs ++ replicate (n - length xs) none

-- A call returns a pointer, or indexes the vector out of its bounds.
pub data Result : Type 0 where
  ok : Option ℕ → FdManager → Result
  out_of_bounds : Result

abbrev pub write_heap : (ℕ → FdCtx) → ℕ → FdCtx → ℕ → FdCtx
write_heap heap a c x = if x == a then c else heap x

-- The part of `get` behind the write lock. `fd * 1.5` is cut to an integer.
unfoldable pub create : System → ℕ → FdManager → Result
create s fd m =
    let a = m.next_address in
    let datas = if leb (length m.datas) fd then resize (fd * 3 / 2) m.datas else m.datas in
    if ltb fd (length datas)
    then ok (some a) (record {
      datas = set datas fd (some a);
      heap = write_heap m.heap a (new_ctx s fd).0;
      next_address = suc a;
    })
    else out_of_bounds

-- The vector's entry: none out of bounds.
abbrev pub entry : FdManager → ℕ → Option (Option ℕ)
entry m fd = get_elem? m.datas fd

-- The tests of `get` on the entry.
unfoldable pub get_at : Option (Option ℕ) → System → ℕ → Bool → FdManager → Result
get_at none s fd false m = ok none m
get_at none s fd true m = create s fd m
get_at (some (some a)) s fd auto_create m = ok (some a) m
get_at (some none) s fd false m = ok none m
get_at (some none) s fd true m = create s fd m

-- FdManager::get. Of the negative descriptors only -1 is refused.
unfoldable pub get : System → ℤ → Bool → FdManager → Result
get s (pos fd) auto_create m = get_at (entry m fd) s fd auto_create m
get s (negsuc n) auto_create m = if n == 0 then ok none m else out_of_bounds

-- FdManager::del
unfoldable pub del : ℤ → FdManager → Result
del (pos fd) m =
    if leb (length m.datas) fd
    then ok none m
    else ok none (record m { datas = set m.datas fd none })
del (negsuc n) m = out_of_bounds
