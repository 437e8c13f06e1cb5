-- ===== src/Connection/Age.antt =====
-- What the age of connections does to a pool.
use server_demo.Common.{
  ℕ, ◌+◌, ◌-◌, ◌≤◌, ◌<◌, ◌≡◌, refl, sym, ap, subst, Bool, true, false, Option, none, some, List, [],
  ◌∷◌, length, All, arith, if◌then◌else◌, Bool-cases, inl, inr,
}
use server_demo.Connection.Pool.{
  HttpConnection, HttpConnectionPool, invalid, take_conn, lend, get_connection, worn_out, release,
  update, new_pool, Step, gets, releases, changes, Reach, here, later,
}

-- The pool is asked while the connections in it are younger than its limit on the time they live.
abbrev pub AllYoung : ℕ → ℕ → (ℕ → HttpConnection) → List ℕ → Type 0
AllYoung now alive heap ps = All (λ p. now < (heap p).create_time + alive) ps

take_conn-AllYoung :
    (now alive : ℕ) (heap : ℕ → HttpConnection) (ps : List ℕ)
    → AllYoung now alive heap ps
    → take_conn now alive heap ps ≡ (ps, none, [])
unfolding take_conn
take_conn-AllYoung now alive heap [] h = refl
take_conn-AllYoung now alive heap (p ∷ ps) h =
    let bad : invalid now alive (heap p) ≡ true = ground (arith, h.0) in
    rw bad (
      ap (λ (r : List ℕ × Option ℕ × List ℕ). (p ∷ r.0, r.1, r.2))
        (take_conn-AllYoung now alive heap ps h.1))

-- Where every connection of the pool is younger than the time it may live, `getConnection` throws
-- all of them away, connected or not, and lends a new one if the host is reached.
pub get_connection-AllYoung :
    (now : ℕ) (reached : Bool) (pool : HttpConnectionPool)
    → AllYoung now pool.max_alive_time pool.heap pool.conns
    → get_connection now reached pool
      ≡ lend none reached (record pool { conns = []; total = pool.total - length pool.conns })
unfolding get_connection
get_connection-AllYoung now reached pool h =
    ap
      (λ (r : List ℕ × Option ℕ × List ℕ).
        lend r.1 reached (record pool { conns = r.2; total = pool.total - length r.0 }))
      (take_conn-AllYoung now pool.max_alive_time pool.heap pool.conns h)

-- The same loop without the test of the age.
abbrev pub first_connected : (ℕ → HttpConnection) → List ℕ → List ℕ × Option ℕ × List ℕ
first_connected heap [] = ([], none, [])
first_connected heap (p ∷ ps) =
    let (deleted, found, left) = first_connected heap ps in
    if (heap p).connected then ([], some p, ps) else (p ∷ deleted, found, left)

take_conn-first_connected :
    (now alive : ℕ) (heap : ℕ → HttpConnection) (ps : List ℕ)
    → ((p : ℕ) → (heap p).create_time ≡ 0)
    → alive ≤ now
    → take_conn now alive heap ps ≡ first_connected heap ps
unfolding take_conn
take_conn-first_connected now alive heap [] old le = refl
take_conn-first_connected now alive heap (p ∷ ps) old le = elim (Bool-cases (heap p).connected) [
  | inl up ↦
      let good : invalid now alive (heap p) ≡ false = ground (arith, old p) in rw (good, up) refl
  | inr down ↦
      let bad : invalid now alive (heap p) ≡ true = ground arith in
      rw (bad, down)
        (ap (λ (r : List ℕ × Option ℕ × List ℕ). (p ∷ r.0, r.1, r.2))
          (take_conn-first_connected now alive heap ps old le))
]

-- The creation times stay 0, and the pool's limit stays as it was.
record Ageless (alive : ℕ) (pool : HttpConnectionPool) : Type 0 where
  limit : pool.max_alive_time ≡ alive
  zero_time : (p : ℕ) → (pool.heap p).create_time ≡ 0

lend-Ageless :
    (alive : ℕ) (found : Option ℕ) (reached : Bool) (pool : HttpConnectionPool)
    → Ageless alive pool
    → Ageless alive (lend found reached pool).1
lend-Ageless alive (some p) reached pool a = record { limit = a.limit; zero_time = a.zero_time }
lend-Ageless alive none false pool a = a
lend-Ageless alive none true pool a = record {
  limit = a.limit;
  zero_time = λ p. ground (arith, a.zero_time p);
}

update-zero_time :
    (heap : ℕ → HttpConnection) (p : ℕ) (c : HttpConnection)
    → ((q : ℕ) → (heap q).create_time ≡ 0)
    → c.create_time ≡ 0
    → (q : ℕ) → (update heap p c q).create_time ≡ 0
update-zero_time heap p c old z q = ground (arith, old q, z)

release-Ageless :
    (alive now p : ℕ) (pool : HttpConnectionPool)
    → Ageless alive pool
    → Ageless alive (release now p pool)
unfolding release
release-Ageless alive now p pool a =
    let c' : HttpConnection = record (pool.heap p) { request = (pool.heap p).request + 1 } in
    let zero' = update-zero_time pool.heap p c' a.zero_time (a.zero_time p) in
    elim (Bool-cases (worn_out now pool c')) [
      | inl old ↦ rw old (record { limit = a.limit; zero_time = zero' })
      | inr good ↦ rw good (record { limit = a.limit; zero_time = zero' })
    ]

Step-Ageless :
    (alive : ℕ) {pool pool' : HttpConnectionPool}
    → Step pool pool'
    → Ageless alive pool
    → Ageless alive pool'
unfolding get_connection release
Step-Ageless alive {pool} (gets now reached e) a =
    subst (Ageless alive) (sym e)
      (lend-Ageless alive _ reached _ (record { limit = a.limit; zero_time = a.zero_time }))
Step-Ageless alive {pool} (releases now p h e) a =
    subst (Ageless alive) (sym e) (release-Ageless alive now p pool a)
Step-Ageless alive {pool} (changes p connected e) a =
    let c' : HttpConnection = record (pool.heap p) { connected = connected } in
    subst (Ageless alive) (sym e) (record {
      limit = a.limit;
      zero_time = update-zero_time pool.heap p c' a.zero_time (a.zero_time p);
    })

Reach-Ageless :
    (alive requests : ℕ) {pool : HttpConnectionPool}
    → Reach (new_pool alive requests) pool
    → Ageless alive pool
unfolding new_pool
Reach-Ageless alive requests here = record { limit = refl; zero_time = λ p. refl }
Reach-Ageless alive requests (later r s) = Step-Ageless alive s (Reach-Ageless alive requests r)

-- In every pool that its calls can reach from an empty one, asked at a time that is not below its
-- limit on the time a connection lives, `getConnection` does what its loop would do without the
-- test of the age: it deletes the connections before the first that is connected and lends that
-- one, or else a new one if the host is reached.
pub get_connection-first_connected :
    (alive requests now : ℕ) (reached : Bool) {pool : HttpConnectionPool}
    → Reach (new_pool alive requests) pool
    → alive ≤ now
    → get_connection now reached pool ≡ (
        let r = first_connected pool.heap pool.conns in
        lend r.1 reached (record pool { conns = r.2; total = pool.total - length r.0 }))
unfolding get_connection
get_connection-first_connected alive requests now reached {pool} r le =
    let a = Reach-Ageless alive requests r in
    ap
      (λ (t : List ℕ × Option ℕ × List ℕ).
        lend t.1 reached (record pool { conns = t.2; total = pool.total - length t.0 }))
      (take_conn-first_connected now pool.max_alive_time pool.heap pool.conns a.zero_time
        (omega (arith, a.limit, le)))
