-- ===== src/Connection/Pool.antt =====
-- HttpConnectionPool. Connections are objects, which a pointer is the address of; whether one is
-- connected is up to its peer.
use server_demo.Common.{
  ℕ, ◌+◌, ◌-◌, ◌≡◌, Bool, true, false, not, ◌||◌, Option, none, some, List, [], ◌∷◌, ◌++◌, ◌==◌,
  ltb, leb, length, if◌then◌else◌,
}

-- HttpConnection; `connected` is what isConnected() tells.
pub record HttpConnection : Type 0 where
  pub connected : Bool
  pub create_time : ℕ
  pub request : ℕ

-- The members of the pool that its calls decide by. `lent` lists the pointers that are handed out
-- and not yet released; `next` is where the next connection will stand.
pub record HttpConnectionPool : Type 0 where
  pub max_alive_time : ℕ
  pub max_request : ℕ
  pub conns : List ℕ
  pub total : ℕ
  pub heap : ℕ → HttpConnection
  pub next : ℕ
  pub lent : List ℕ

abbrev pub update : (ℕ → HttpConnection) → ℕ → HttpConnection → ℕ → HttpConnection
update heap p c x = if x == p then c else heap x

-- The two tests of the loop in getConnection.
abbrev pub invalid : ℕ → ℕ → HttpConnection → Bool
invalid now alive c = not c.connected || ltb now (c.create_time + alive)

-- The loop: the connections to delete, the one that is found, and those that are left.
unfoldable pub take_conn : ℕ → ℕ → (ℕ → HttpConnection) → List ℕ → List ℕ × Option ℕ × List ℕ
take_conn now alive heap [] = ([], none, [])
take_conn now alive heap (p ∷ ps) =
    let (deleted, found, left) = take_conn now alive heap ps in
    if invalid now alive (heap p) then (p ∷ deleted, found, left) else ([], some p, ps)

-- A new connection: its m_createTime keeps its initial value.
abbrev pub new_connection : HttpConnection
new_connection = record { connected = true; create_time = 0; request = 0 }

abbrev pub lend : Option ℕ → Bool → HttpConnectionPool → Option ℕ × HttpConnectionPool
lend (some p) reached pool = (some p, record pool { lent = p ∷ pool.lent })
lend none false pool = (none, pool)
lend none true pool = (
  some pool.next,
  record pool {
    total = pool.total + 1;
    heap = update pool.heap pool.next new_connection;
    next = pool.next + 1;
    lent = pool.next ∷ pool.lent;
  },
)

-- HttpConnectionPool::getConnection at the time `now`; `reached` says whether the host is found
-- and a new socket connects.
unfoldable pub get_connection : ℕ → Bool → HttpConnectionPool → Option ℕ × HttpConnectionPool
unfolding take_conn
get_connection now reached pool =
    let (deleted, found, left) = take_conn now pool.max_alive_time pool.heap pool.conns in
    lend found reached (record pool { conns = left; total = pool.total - length deleted })

-- The tests of ReleasePtr, on the connection with the request counted.
abbrev pub worn_out : ℕ → HttpConnectionPool → HttpConnection → Bool
worn_out now pool c =
    not c.connected
    || leb now (c.create_time + pool.max_alive_time)
    || leb pool.max_request c.request

abbrev pub remove : ℕ → List ℕ → List ℕ
remove p [] = []
remove p (q ∷ ps) = let rest = remove p ps in if q == p then ps else q ∷ rest

-- HttpConnectionPool::ReleasePtr at the time `now`, of a pointer that was handed out.
unfoldable pub release : ℕ → ℕ → HttpConnectionPool → HttpConnectionPool
release now p pool =
    let c = pool.heap p in
    let c' = record c { request = c.request + 1 } in
    let pool' = record pool { heap = update pool.heap p c'; lent = remove p pool.lent } in
    if worn_out now pool c'
    then record pool' { total = pool.total - 1 }
    else record pool' { conns = pool.conns ++ (p ∷ []) }

abbrev pub is_lent : ℕ → List ℕ → Bool
is_lent p [] = false
is_lent p (q ∷ ps) = if q == p then true else is_lent p ps

-- The constructor.
unfoldable pub new_pool : ℕ → ℕ → HttpConnectionPool
new_pool max_alive_time max_request = record {
  max_alive_time = max_alive_time;
  max_request = max_request;
  conns = [];
  total = 0;
  heap = λ p. new_connection;
  next = 0;
  lent = [];
}

-- A caller takes a connection, or releases one; or a peer connects or hangs up.
pub data Step (pool pool' : HttpConnectionPool) : Type 0 where
  gets : (now : ℕ) (reached : Bool) → pool' ≡ (get_connection now reached pool).1 → Step pool pool'
  releases : (now p : ℕ) → is_lent p pool.lent ≡ true → pool' ≡ release now p pool → Step pool pool'
  changes :
      (p : ℕ) (connected : Bool)
      → pool'
        ≡ record pool { heap = update pool.heap p (record (pool.heap p) { connected = connected }) }
      → Step pool pool'

pub data Reach (pool : HttpConnectionPool) : HttpConnectionPool → Type 0 where
  here : Reach pool pool
  later : {mid pool' : HttpConnectionPool} → Reach pool mid → Step mid pool' → Reach pool pool'
