-- ===== src/Connection/Tests.antt =====
-- A pool of one connection, and the theorems at it.
use server_demo.Common.{◌-◌, ◌≡◌, refl, true, length, [], ◌∷◌, arith}
use server_demo.Connection.Pool.{
  HttpConnectionPool, take_conn, lend, get_connection, release, new_pool, gets, releases, Reach,
  here, later,
}
use server_demo.Connection.Lent.{IsValid, Reach-IsValid}
use server_demo.Connection.Age.{first_connected, get_connection-first_connected}

-- A connection is taken from a pool and released 2000 milliseconds later, and again.
abbrev empty : HttpConnectionPool
empty = new_pool 1000 3

abbrev taken : HttpConnectionPool
taken = (get_connection 5000 true empty).1

abbrev back : HttpConnectionPool
back = release 7000 0 taken

back-Reach : Reach empty back
unfolding release get_connection take_conn new_pool
back-Reach = later (later here (gets 5000 true refl)) (releases 7000 0 refl refl)

-- The connection goes back into the pool, and is found again.
comes_back : back.conns ≡ 0 ∷ []
unfolding release get_connection take_conn new_pool
comes_back = refl

-- Within its time a connection is thrown away instead.
thrown_away : (release 999 0 taken).conns ≡ []
unfolding release get_connection take_conn new_pool
thrown_away = refl

Reach-IsValid_example : IsValid back
Reach-IsValid_example = Reach-IsValid 1000 3 back-Reach

get_connection-first_connected_example : get_connection 8000 true back ≡ (
    let r = first_connected back.heap back.conns in
    lend r.1 true (record back { conns = r.2; total = back.total - length r.0 }))
get_connection-first_connected_example =
    get_connection-first_connected 1000 3 8000 true back-Reach (omega arith)
