-- ===== src/FdManager/Laws.antt =====
-- The contexts of an `FdManager`: one for each descriptor, from its creation to its deletion.
use server_demo.Common.{
  ℕ, zero, suc, ◌-◌, ◌*◌, ◌/◌, ◌≤◌, ◌<◌, ◌≡◌, ◌≢◌, ◌⊎◌, inl, inr, refl, sym, ap, ◌∙◌, Bool, true,
  false, Option, none, some, List, [], ◌∷◌, ◌++◌, length, get_elem?, set, replicate, length-append,
  length-replicate, length-set, take_all, arith, leb, ◌==◌, if◌then◌else◌, le-or-lt, Option-cases,
  Bool-cases, lt→ltb, le→leb,
}
use server_demo.Common.Int.{pos, negsuc}
use server_demo.FdManager.Table.{
  FdCtx, System, init, new_ctx, FdManager, resize, ok, out_of_bounds, create, entry, get_at, get,
  del, write_heap,
}

-- The vector never shrinks below its first size.
pub record IsValid (m : FdManager) : Type 0 where
  pub room : 64 ≤ length m.datas

-- The pointer that the table holds for a descriptor, null out of its bounds.
abbrev pub held : Option (Option ℕ) → Option ℕ
held none = none
held (some p) = p

abbrev pub lookup : FdManager → ℕ → Option ℕ
lookup m fd = held (entry m fd)

get_elem?-set :
    (xs : List (Option ℕ)) (i j : ℕ) (p : Option ℕ)
    → i < length xs
    → held (get_elem? (set xs i p) j) ≡ (if j == i then p else held (get_elem? xs j))
get_elem?-set [] i j p h = absurd (omega arith)
get_elem?-set (x ∷ xs) zero zero p h = refl
get_elem?-set (x ∷ xs) zero (suc j) p h = ground arith
get_elem?-set (x ∷ xs) (suc i) zero p h = ground arith
get_elem?-set (x ∷ xs) (suc i) (suc j) p h = ground (arith, get_elem?-set xs i j p, h)

get_elem?-replicate : (n j : ℕ) → held (get_elem? (replicate n none) j) ≡ none
get_elem?-replicate zero j = refl
get_elem?-replicate (suc n) zero = refl
get_elem?-replicate (suc n) (suc j) = get_elem?-replicate n j

held-grown :
    (xs : List (Option ℕ)) (n j : ℕ)
    → held (get_elem? (xs ++ replicate n none) j) ≡ held (get_elem? xs j)
held-grown [] n j = get_elem?-replicate n j
held-grown (x ∷ xs) n zero = refl
held-grown (x ∷ xs) n (suc j) = held-grown xs n j

held-resize :
    (xs : List (Option ℕ)) (n j : ℕ)
    → length xs ≤ n
    → held (get_elem? (resize n xs) j) ≡ held (get_elem? xs j)
held-resize xs n j h = rw (take_all n xs h) (held-grown xs (n - length xs) j)

length-resize : (xs : List (Option ℕ)) (n : ℕ) → length xs ≤ n → length (resize n xs) ≡ n
length-resize xs n h = rw (take_all n xs h) (
    omega (
      arith,
      length-append xs (replicate (n - length xs) none),
      length-replicate {A = Option ℕ} (n - length xs) none,
    ))

get_elem?_out : (xs : List (Option ℕ)) (i : ℕ) → length xs ≤ i → get_elem? xs i ≡ none
get_elem?_out [] i h = refl
get_elem?_out (x ∷ xs) zero h = absurd (omega (arith, h))
get_elem?_out (x ∷ xs) (suc i) h = get_elem?_out xs i (omega (arith, h))

leb_lt : (a b : ℕ) → b < a → leb a b ≡ false
leb_lt a b h = ground arith

-- The table `c` holds `a` for `fd`, and for the other descriptors what `m` holds.
pub record Holds (fd : ℕ) (p : Option ℕ) (m c : FdManager) : Type 0 where
  pub this : lookup c fd ≡ p
  pub others : (j : ℕ) → j ≢ fd → lookup c j ≡ lookup m j
  pub valid : IsValid c

stored :
    (fd : ℕ) (datas : List (Option ℕ)) (m : FdManager) (heap : ℕ → FdCtx) (n : ℕ) (p : Option ℕ)
    → fd < length datas
    → 64 ≤ length datas
    → ((j : ℕ) → held (get_elem? datas j) ≡ lookup m j)
    → Holds fd p m (record { datas = set datas fd p; heap = heap; next_address = n })
stored fd datas m heap n p h room same = record {
  this = get_elem?-set datas fd fd p h ∙ ground arith;
  others = λ j k. get_elem?-set datas fd j p h ∙ ground (arith, k, same j);
  valid = record { room = omega (arith, length-set datas fd p, room) };
}

-- A call that creates a context: its address is new, and the context is the constructor's.
pub record Created (s : System) (fd : ℕ) (m c : FdManager) : Type 0 where
  pub holds : Holds fd (some m.next_address) m c
  pub context : c.heap m.next_address ≡ (new_ctx s fd).0
  pub older : (a : ℕ) → a < m.next_address → c.heap a ≡ m.heap a

-- The vector that `create` stores into, once its length is known.
Created-in :
    (s : System) (fd : ℕ) (m : FdManager) (datas : List (Option ℕ))
    → (if leb (length m.datas) fd then resize (fd * 3 / 2) m.datas else m.datas) ≡ datas
    → fd < length datas
    → 64 ≤ length datas
    → ((j : ℕ) → held (get_elem? datas j) ≡ lookup m j)
    → (c : FdManager) × (create s fd m ≡ ok (some m.next_address) c) × Created s fd m c
unfolding create
Created-in s fd m datas e inside room same =
    let a = m.next_address in
    let heap = write_heap m.heap a (new_ctx s fd).0 in
    (
      record { datas = set datas fd (some a); heap = heap; next_address = suc a },
      rw (e, lt→ltb fd (length datas) inside) refl,
      record {
        holds = stored fd datas m heap (suc a) (some a) inside room same;
        context = ground arith;
        older = λ x h. ground (arith, h);
      },
    )

create-Created :
    (s : System) (fd : ℕ) (m : FdManager)
    → IsValid m
    → (c : FdManager) × (create s fd m ≡ ok (some m.next_address) c) × Created s fd m c
create-Created s fd m v = elim (le-or-lt (length m.datas) fd) [
  | inl grows ↦
      let wide : length m.datas ≤ fd * 3 / 2 = omega (arith, grows) in
      let size = length-resize m.datas (fd * 3 / 2) wide in
      Created-in s fd m (resize (fd * 3 / 2) m.datas)
        (ap (λ b. if b then resize (fd * 3 / 2) m.datas else m.datas)
          (le→leb (length m.datas) fd grows))
        (omega (arith, size, grows, v.room)) (omega (arith, size, grows, v.room))
        (λ j. held-resize m.datas (fd * 3 / 2) j wide)
  | inr fits ↦
      Created-in s fd m m.datas
        (ap (λ b. if b then resize (fd * 3 / 2) m.datas else m.datas)
          (leb_lt (length m.datas) fd fits))
        fits v.room (λ j. refl)
]

-- `get` with `auto_create` of a descriptor that is not negative, on a manager with its first 64
-- places, returns the context that is there and changes nothing, or creates one by the
-- constructor where there is none, returns it and keeps it in the table; the contexts of the
-- other descriptors are as they were.
pub get-Holds :
    (s : System) (fd : ℕ) (m : FdManager)
    → IsValid m
    → (((a : ℕ) × (lookup m fd ≡ some a) × (get s (pos fd) true m ≡ ok (some a) m))
        ⊎ ((c : FdManager) × (lookup m fd ≡ none)
            × (get s (pos fd) true m ≡ ok (some m.next_address) c)
            × Created s fd m c))
unfolding get
get-Holds s fd m v =
    let (c, made, created) = create-Created s fd m v in
    elim (Option-cases (entry m fd)) [
      | inl out ↦
          inr (c, ap held out, ap (λ p. get_at p s fd true m) out ∙ unfold get_at in made, created)
      | inr (p, in_bounds) ↦ elim (Option-cases p) [
        | inl null ↦
            let at = in_bounds ∙ ap some null in
            inr (c, ap held at, ap (λ p. get_at p s fd true m) at ∙ unfold get_at in made, created)
        | inr (a, there) ↦
            let at = in_bounds ∙ ap some there in
            inl (a, ap held at, ap (λ p. get_at p s fd true m) at ∙ unfold get_at in refl)
      ]
    ]

-- Without `auto_create` it returns what the table holds and changes nothing.
pub get-lookup : (s : System) (fd : ℕ) (m : FdManager) → get s (pos fd) false m ≡ ok (lookup m fd) m
unfolding get
get-lookup s fd m = at (entry m fd)
  where
    at : (p : Option (Option ℕ)) → get_at p s fd false m ≡ ok (held p) m
    at none = unfold get_at in refl
    at (some none) = unfold get_at in refl
    at (some (some a)) = unfold get_at in refl

-- After `del` of a descriptor that is not negative, on a manager with its first 64 places, there
-- is no context for it, the other descriptors have those they had, and the places are still
-- there.
pub del-Holds :
    (fd : ℕ) (m : FdManager)
    → IsValid m
    → (c : FdManager) × (del (pos fd) m ≡ ok none c) × Holds fd none m c
unfolding del
del-Holds fd m v = elim (le-or-lt (length m.datas) fd) [
  | inl out ↦ (
    m,
    rw (le→leb (length m.datas) fd out) refl,
    record { this = ap held (get_elem?_out m.datas fd out); others = λ j k. refl; valid = v },
  )
  | inr inside ↦ (
    record m { datas = set m.datas fd none },
    rw (leb_lt (length m.datas) fd inside) refl,
    stored fd m.datas m m.heap m.next_address none inside v.room (λ j. refl),
  )
]

-- It changes no context.
pub del-heap :
    (fd : ℕ) (m : FdManager) {c : FdManager} → del (pos fd) m ≡ ok none c → c.heap ≡ m.heap
unfolding del
del-heap fd m {c} e = elim (Bool-cases (leb (length m.datas) fd)) [
  | inl out ↦ heap_of m (sym (rw out refl) ∙ e)
  | inr inside ↦ heap_of (record m { datas = set m.datas fd none }) (sym (rw inside refl) ∙ e)
]
  where
    heap_of : (d : FdManager) → ok none d ≡ ok none c → c.heap ≡ d.heap
    heap_of d q = cc q

-- A negative descriptor other than -1, and for `del` this one too, indexes the vector out of its bounds.
pub negative-out_of_bounds :
    (s : System) (n : ℕ) (auto_create : Bool) (m : FdManager)
    → (get s (negsuc (suc n)) auto_create m ≡ out_of_bounds) × (del (negsuc n) m ≡ out_of_bounds)
unfolding get del
negative-out_of_bounds s n auto_create m = (ground arith, refl)

-- A new context: a socket is set to be non-blocking, anything else is left as it is, and no time-out is set.
pub new_ctx-nonblock :
    (s : System) (fd : ℕ)
    → let (c, flag) = new_ctx s fd in
      (c.sys_nonblock ≡ c.is_socket)
      × (c.is_socket ≡ true → (c.is_init ≡ true) × (flag ≡ true))
      × (c.is_socket ≡ false → flag ≡ s.o_nonblock)
unfolding new_ctx init
new_ctx-nonblock s fd = (refl, ground arith, ground arith)
