-- ===== src/Timer/Lost.antt =====
-- `refresh` and `reset` clear `m_cb`: what becomes of the timer.
use server_demo.Common.{
  ℕ, ◌≡◌, ◌≢◌, inl, inr, refl, subst, Bool, true, false, not, ◌&&◌, none, some, List, [], ◌∷◌,
  arith, if◌then◌else◌, ◌==◌, Bool-cases,
}
use server_demo.Timer.Manager.{
  Timer, TimerManager, add64, sub64, update, less, insert, find_erase, ok, drop_cb,
  add_timer_locked, cancel, refresh, reset,
}
use server_demo.Timer.Order.{Absent}
use server_demo.Timer.Invariant.{find_erase-drop_cb}

-- The timer stands in the set, or does not.
abbrev pub Scheduled : ℕ → List ℕ → Type 0
Scheduled a xs = Absent a xs → ⊥

Scheduled-tail : (a x : ℕ) (xs : List ℕ) → x ≢ a → Scheduled a (x ∷ xs) → Scheduled a xs
Scheduled-tail a x xs k s h = s (k, h)

module _ (heap : ℕ → Timer) (a : ℕ) where
  less_irreflexive : less heap a a ≡ false
  less_irreflexive = ground arith

  -- A search finds a timer that stands in the set.
  pub find_erase-Scheduled :
      (xs : List ℕ) → Scheduled a xs → (ys : List ℕ) × (find_erase heap a xs ≡ some ys)
  unfolding find_erase
  find_erase-Scheduled [] s = absurd (s tt)
  find_erase-Scheduled (x ∷ xs) s = elim (Bool-cases (not (less heap a x) && not (less heap x a))) [
    | inl hit ↦ (xs, rw hit refl)
    | inr miss ↦
        let other : x ≢ a = λ e. absurd (ground (arith, miss, less_irreflexive, e)) in
        let (ys, there) = find_erase-Scheduled xs (Scheduled-tail a x xs other s) in
        (x ∷ ys, rw (miss, there) refl)
  ]

  same : (x : ℕ) → less heap a x ≡ false → less heap x a ≡ false → x ≡ a
  same x h k = ground arith

  -- A timer that was put into the set stands in it.
  insert-Scheduled : (xs : List ℕ) → Scheduled a (insert heap a xs)
  unfolding insert
  insert-Scheduled [] h = h.0 refl
  insert-Scheduled (x ∷ xs) h = elim (Bool-cases (less heap a x)) [
    | inl front ↦
        let at : insert heap a (x ∷ xs) ≡ a ∷ x ∷ xs = rw front refl in
        let absent : Absent a (a ∷ x ∷ xs) = subst (Absent a) at h in absent.0 refl
    | inr not_front ↦ elim (Bool-cases (less heap x a)) [
      | inl behind ↦
          let at : insert heap a (x ∷ xs) ≡ x ∷ insert heap a xs = rw (not_front, behind) refl in
          let absent : Absent a (x ∷ insert heap a xs) = subst (Absent a) at h in
          insert-Scheduled xs absent.1
      | inr neither ↦
          let at : insert heap a (x ∷ xs) ≡ x ∷ xs = rw (not_front, neither) refl in
          let absent : Absent a (x ∷ xs) = subst (Absent a) at h in
          absent.0 (same x not_front neither)
    ]
  ]

-- The timer is in the set but has no callback; it can be neither cancelled nor set again.
pub record Lost (a : ℕ) (c : TimerManager) : Type 0 where
  pub empty : (c.heap a).cb ≡ none
  pub scheduled : Scheduled a c.timers
  pub not_cancelled : cancel a c ≡ ok false c
  pub not_refreshed : (now : ℕ) → refresh now a c ≡ ok false c

empty-Lost : (a : ℕ) (c : TimerManager) → (c.heap a).cb ≡ none → Scheduled a c.timers → Lost a c
unfolding cancel refresh
empty-Lost a c e s = record {
  empty = e;
  scheduled = s;
  not_cancelled = rw (e, cancel) refl;
  not_refreshed = λ now. rw (e, refresh) refl;
}

update_cb : (heap : ℕ → Timer) (a : ℕ) (t : Timer) → (update heap a t a).cb ≡ t.cb
update_cb heap a t = ground arith

-- After `refresh` of a timer that has a callback and stands in the set, the call returns true and
-- the timer stands in the set without a callback, where neither `cancel` nor `refresh` succeeds
-- on it.
pub refresh-Lost :
    (now a f : ℕ) (m : TimerManager)
    → (m.heap a).cb ≡ some f
    → Scheduled a m.timers
    → (c : TimerManager) × (refresh now a m ≡ ok true c) × Lost a c
unfolding refresh
refresh-Lost now a f m alive s =
    let (ys, there) = find_erase-Scheduled m.heap a m.timers s in
    let heap = update m.heap a (record (drop_cb (m.heap a)) { next = add64 now (m.heap a).ms }) in
    (
      record m { heap = heap; timers = insert heap a ys },
      rw (alive, refresh, find_erase-drop_cb m.heap a m.timers, there) refl,
      empty-Lost a _ (update_cb m.heap a _) (insert-Scheduled _ a ys),
    )

-- After `reset` of a timer that has a callback and stands in the set, unless to its old period
-- and not from now on, the call returns true and the timer stands in the set without a callback,
-- where neither `cancel` nor `refresh` succeeds on it.
pub reset-Lost :
    (now ms : ℕ) (from_now : Bool) (a f : ℕ) (m : TimerManager)
    → (m.heap a).cb ≡ some f
    → (ms == (m.heap a).ms && not from_now) ≡ false
    → Scheduled a m.timers
    → (c : TimerManager) × (reset now ms from_now a m ≡ ok true c) × Lost a c
unfolding reset add_timer_locked
reset-Lost now ms from_now a f m alive other s =
    let (ys, there) = find_erase-Scheduled m.heap a m.timers s in
    let t = drop_cb (m.heap a) in
    let start = if from_now then now else sub64 t.next t.ms in
    let heap = update m.heap a (record t { ms = ms; next = add64 start ms }) in
    (
      add_timer_locked a (record m { heap = heap; timers = ys }),
      rw (alive, reset, other, find_erase-drop_cb m.heap a m.timers, there) refl,
      empty-Lost a _ (update_cb m.heap a _) (insert-Scheduled _ a ys),
    )
