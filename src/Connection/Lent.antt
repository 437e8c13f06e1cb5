-- ===== src/Connection/Lent.antt =====
-- A pool hands out each connection to one caller at a time, and counts what it has.
use server_demo.Common.{
  ℕ, ◌+◌, ◌-◌, ◌≤◌, ◌≡◌, refl, sym, subst, Bool, true, false, Option, none, some, List, [], ◌∷◌,
  ◌++◌, ◌==◌, ltb, length, length-append, arith, if◌then◌else◌, Bool-cases, inl, inr,
}
use server_demo.Connection.Pool.{
  HttpConnection, HttpConnectionPool, invalid, take_conn, lend, get_connection, worn_out, remove,
  release, is_lent, new_pool, Step, gets, releases, changes, Reach, here, later,
}

-- How often a pointer is in a list.
abbrev pub count : ℕ → List ℕ → ℕ
count p [] = 0
count p (q ∷ ps) = (if q == p then 1 else 0) + count p ps

abbrev pub found_list : Option ℕ → List ℕ
found_list none = []
found_list (some p) = p ∷ []

take_conn-count :
    (now alive : ℕ) (heap : ℕ → HttpConnection) (q : ℕ) (ps : List ℕ)
    → let r = take_conn now alive heap ps in
      count q r.0 + count q (found_list r.1) + count q r.2 ≡ count q ps
unfolding take_conn
take_conn-count now alive heap q [] = refl
take_conn-count now alive heap q (p ∷ ps) = elim (Bool-cases (invalid now alive (heap p))) [
  | inl bad ↦ rw bad (omega (arith, take_conn-count now alive heap q ps))
  | inr good ↦ rw good (omega arith)
]

take_conn-length :
    (now alive : ℕ) (heap : ℕ → HttpConnection) (ps : List ℕ)
    → let r = take_conn now alive heap ps in
      length r.0 + length (found_list r.1) + length r.2 ≡ length ps
unfolding take_conn
take_conn-length now alive heap [] = refl
take_conn-length now alive heap (p ∷ ps) = elim (Bool-cases (invalid now alive (heap p))) [
  | inl bad ↦ rw bad (omega (arith, take_conn-length now alive heap ps))
  | inr good ↦ rw good (omega arith)
]

count-remove :
    (p q : ℕ) (ps : List ℕ)
    → is_lent p ps ≡ true
    → count q (remove p ps) + (if p == q then 1 else 0) ≡ count q ps
count-remove p q [] h = cc
count-remove p q (x ∷ ps) h = ground (arith, count-remove p q ps, h)

length-remove : (p : ℕ) (ps : List ℕ) → is_lent p ps ≡ true → length (remove p ps) + 1 ≡ length ps
length-remove p [] h = cc
length-remove p (x ∷ ps) h = ground (arith, length-remove p ps, h)

count-append : (q : ℕ) (xs ys : List ℕ) → count q (xs ++ ys) ≡ count q xs + count q ys
count-append q [] ys = omega arith
count-append q (x ∷ xs) ys = omega (arith, count-append q xs ys)

-- m_total counts the connections in the pool and those handed out; no connection is in two
-- places, and none that is yet to be made is anywhere.
pub record IsValid (pool : HttpConnectionPool) : Type 0 where
  pub counted : pool.total ≡ length pool.conns + length pool.lent
  pub once : (q : ℕ) → count q pool.conns + count q pool.lent ≤ (if ltb q pool.next then 1 else 0)

lend-IsValid :
    (found : Option ℕ) (reached : Bool) (pool : HttpConnectionPool)
    → pool.total ≡ length pool.conns + length (found_list found) + length pool.lent
    → ((q : ℕ)
        → count q pool.conns + count q (found_list found) + count q pool.lent
          ≤ (if ltb q pool.next then 1 else 0))
    → IsValid (lend found reached pool).1
lend-IsValid (some p) reached pool c o = record {
  counted = omega (arith, c);
  once = λ q. omega (arith, o q);
}
lend-IsValid none false pool c o = record {
  counted = omega (arith, c);
  once = λ q. omega (arith, o q);
}
lend-IsValid none true pool c o = record {
  counted = omega (arith, c);
  once = λ q. ground (arith, o q);
}

get_connection-IsValid :
    (now : ℕ) (reached : Bool) (pool : HttpConnectionPool)
    → IsValid pool
    → IsValid (get_connection now reached pool).1
unfolding get_connection
get_connection-IsValid now reached pool v =
    let r = take_conn now pool.max_alive_time pool.heap pool.conns in
    let sizes = take_conn-length now pool.max_alive_time pool.heap pool.conns in
    lend-IsValid r.1 reached (record pool { conns = r.2; total = pool.total - length r.0 })
      (omega (arith, v.counted, sizes))
      (λ q. omega (arith, v.once q, take_conn-count now pool.max_alive_time pool.heap q pool.conns))

release-IsValid :
    (now p : ℕ) (pool : HttpConnectionPool)
    → is_lent p pool.lent ≡ true
    → IsValid pool
    → IsValid (release now p pool)
unfolding release
release-IsValid now p pool h v =
    let c' : HttpConnection = record (pool.heap p) { request = (pool.heap p).request + 1 } in
    let size = length-remove p pool.lent h in
    elim (Bool-cases (worn_out now pool c')) [
      | inl old ↦ rw old (record {
        counted = omega (arith, v.counted, size);
        once = λ q. omega (arith, v.once q, count-remove p q pool.lent h);
      })
      | inr good ↦ rw good (record {
        counted = omega (arith, v.counted, size, length-append {0} pool.conns (p ∷ []));
        once = λ q.
            omega
              (arith, v.once q, count-remove p q pool.lent h, count-append q pool.conns (p ∷ []));
      })
    ]

Step-IsValid : {pool pool' : HttpConnectionPool} → Step pool pool' → IsValid pool → IsValid pool'
Step-IsValid {pool} (gets now reached e) v =
    subst IsValid (sym e) (get_connection-IsValid now reached pool v)
Step-IsValid {pool} (releases now p h e) v = subst IsValid (sym e) (release-IsValid now p pool h v)
Step-IsValid {pool} (changes p connected e) v =
    subst IsValid (sym e) (record { counted = v.counted; once = v.once })

-- However callers take and release connections and peers connect and hang up, between the calls
-- the total of a pool is the number of connections in it and handed out, and no connection is in
-- the pool twice, or handed out twice, or both.
pub Reach-IsValid :
    (alive requests : ℕ) {pool : HttpConnectionPool}
    → Reach (new_pool alive requests) pool
    → IsValid pool
unfolding new_pool
Reach-IsValid alive requests here = record { counted = refl; once = λ q. omega arith }
Reach-IsValid alive requests (later r s) = Step-IsValid s (Reach-IsValid alive requests r)
