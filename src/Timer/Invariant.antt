-- ===== src/Timer/Invariant.antt =====
-- The invariant of the timer manager, and that every call keeps it.
use server_demo.Common.{
  ℕ, suc, ◌≤◌, ◌<◌, ◌≡◌, inl, inr, refl, Bool, true, not, ◌&&◌, Option, some, List, [], ◌∷◌, All,
  arith, ◌==◌, Bool-cases, Option-cases,
}
use server_demo.Timer.Manager.{
  Timer, TimerManager, update, less, insert, find_erase, add_timer_locked, add_timer, Result, ok,
  fault, drop_cb, cancel, refresh, reset,
}
use server_demo.Timer.Order.{
  Sorted, Absent, Sorted-update, insert-Sorted, All-insert, find_erase-All, find_erase_hit, Erased,
  find_erase-Erased,
}

-- The set is in order, and holds timers that were made.
pub record IsValid (m : TimerManager) : Type 0 where
  pub sorted : Sorted m.heap m.timers
  pub made : All (λ a. a < m.next_address) m.timers

-- What holds of the manager that a call returns.
abbrev pub Returns : Result → (TimerManager → Type 0) → Type 0
Returns (ok done m) P = P m
Returns fault P = Unit

pub All_below-Absent : (n : ℕ) (xs : List ℕ) → All (λ a. a < n) xs → Absent n xs
All_below-Absent n [] h = tt
All_below-Absent n (x ∷ xs) h = ((λ e. absurd (omega (arith, e, h.0))), All_below-Absent n xs h.1)

pub All-below_mono : (m n : ℕ) (xs : List ℕ) → m ≤ n → All (λ a. a < m) xs → All (λ a. a < n) xs
All-below_mono m n [] le h = tt
All-below_mono m n (x ∷ xs) le h = (omega (arith, h.0), All-below_mono m n xs le h.1)

-- A timer outside the set, changed and put into it.
pub insert_changed :
    (heap : ℕ → Timer) (a n : ℕ) (t : Timer) (xs : List ℕ)
    → Absent a xs
    → a < n
    → Sorted heap xs
    → All (λ x. x < n) xs
    → Sorted (update heap a t) (insert (update heap a t) a xs)
      × All (λ x. x < n) (insert (update heap a t) a xs)
insert_changed heap a n t xs k lt s h = (
  insert-Sorted (update heap a t) a xs k (Sorted-update heap a t xs k s),
  All-insert (λ x. x < n) (update heap a t) a xs k lt h,
)

pub add_timer-IsValid :
    (now ms : ℕ) (cb : Option ℕ) (recurring : Bool) (m : TimerManager)
    → IsValid m
    → IsValid (add_timer now ms cb recurring m).0
unfolding add_timer add_timer_locked
add_timer-IsValid now ms cb recurring m v =
    let a = m.next_address in
    let put =
      insert_changed m.heap a (suc a) _ m.timers (All_below-Absent a m.timers v.made) (omega arith)
        v.sorted (All-below_mono a (suc a) m.timers (omega arith) v.made) in
    record { sorted = put.0; made = put.1 }

-- Clearing the callback of a timer leaves its place in the order.
next_drop_cb :
    (heap : ℕ → Timer) (a x : ℕ) → (update heap a (drop_cb (heap a)) x).next ≡ (heap x).next
next_drop_cb heap a x = ground arith

pub find_erase-drop_cb :
    (heap : ℕ → Timer) (a : ℕ) (xs : List ℕ)
    → find_erase (update heap a (drop_cb (heap a))) a xs ≡ find_erase heap a xs
unfolding find_erase
find_erase-drop_cb heap a [] = refl
find_erase-drop_cb heap a (x ∷ xs) =
    ground (arith, next_drop_cb heap a a, next_drop_cb heap a x, find_erase-drop_cb heap a xs)

pub Sorted-drop_cb :
    (heap : ℕ → Timer) (a : ℕ) (xs : List ℕ)
    → Sorted heap xs
    → Sorted (update heap a (drop_cb (heap a))) xs
Sorted-drop_cb heap a [] s = tt
Sorted-drop_cb heap a (x ∷ xs) s = (each xs s.0, Sorted-drop_cb heap a xs s.1)
  where
    each :
        (ys : List ℕ)
        → All (λ y. less heap x y ≡ true) ys
        → All (λ y. less (update heap a (drop_cb (heap a))) x y ≡ true) ys
    each [] h = tt
    each (y ∷ ys) h = (ground (arith, h.0), each ys h.1)

-- What a successful search by a caller has taken out of a well-formed set.
pub taken_out :
    (m : TimerManager) (a : ℕ) (ys : List ℕ)
    → IsValid m
    → find_erase m.heap a m.timers ≡ some ys
    → Erased m.heap a m.timers ys × All (λ x. x < m.next_address) ys × (a < m.next_address)
taken_out m a ys v e = (
  find_erase-Erased m.heap a m.timers ys v.sorted e,
  find_erase-All (λ x. x < m.next_address) m.heap a m.timers ys e v.made,
  find_erase_hit (λ x. x < m.next_address) m.heap a m.timers ys e v.made,
)

pub cancel-IsValid : (a : ℕ) (m : TimerManager) → IsValid m → Returns (cancel a m) IsValid
unfolding cancel
cancel-IsValid a m v = elim (Option-cases (m.heap a).cb) [
  | inl dead ↦ rw (dead, cancel) v
  | inr (f, alive) ↦ elim (Option-cases (find_erase m.heap a m.timers)) [
    | inl nowhere ↦ rw (alive, cancel, find_erase-drop_cb m.heap a m.timers, nowhere) tt
    | inr (ys, there) ↦
        let (erased, made, _) = taken_out m a ys v there in
        rw (alive, cancel, find_erase-drop_cb m.heap a m.timers, there)
          (record { sorted = Sorted-drop_cb m.heap a ys erased.sorted; made = made })
  ]
]

pub refresh-IsValid : (now a : ℕ) (m : TimerManager) → IsValid m → Returns (refresh now a m) IsValid
unfolding refresh
refresh-IsValid now a m v = elim (Option-cases (m.heap a).cb) [
  | inl dead ↦ rw (dead, refresh) v
  | inr (f, alive) ↦ elim (Option-cases (find_erase m.heap a m.timers)) [
    | inl nowhere ↦
        rw (alive, refresh, find_erase-drop_cb m.heap a m.timers, nowhere)
          (record { sorted = Sorted-drop_cb m.heap a m.timers v.sorted; made = v.made })
    | inr (ys, there) ↦
        let (erased, made, lt) = taken_out m a ys v there in
        let put = insert_changed m.heap a m.next_address _ ys erased.absent lt erased.sorted made in
        rw (alive, refresh, find_erase-drop_cb m.heap a m.timers, there)
          (record { sorted = put.0; made = put.1 })
  ]
]

pub reset-IsValid :
    (now ms : ℕ) (from_now : Bool) (a : ℕ) (m : TimerManager)
    → IsValid m
    → Returns (reset now ms from_now a m) IsValid
unfolding reset add_timer_locked
reset-IsValid now ms from_now a m v = elim (Option-cases (m.heap a).cb) [
  | inl dead ↦ rw (dead, reset) v
  | inr (f, alive) ↦ elim (Bool-cases (ms == (m.heap a).ms && not from_now)) [
    | inl same ↦ rw (alive, reset, same) v
    | inr other ↦ elim (Option-cases (find_erase m.heap a m.timers)) [
      | inl nowhere ↦
          rw (alive, reset, other, find_erase-drop_cb m.heap a m.timers, nowhere)
            (record { sorted = Sorted-drop_cb m.heap a m.timers v.sorted; made = v.made })
      | inr (ys, there) ↦
          let (erased, made, lt) = taken_out m a ys v there in
          let put =
            insert_changed m.heap a m.next_address _ ys erased.absent lt erased.sorted made in
          rw (alive, reset, other, find_erase-drop_cb m.heap a m.timers, there)
            (record { sorted = put.0; made = put.1 })
    ]
  ]
]
