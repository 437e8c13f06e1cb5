-- ===== src/Timer/RunOut.antt =====
-- The loop of `listExpiredCb` over the expired timers.
use server_demo.Common.{
  ℕ, ◌<◌, ◌≡◌, ◌≢◌, inl, inr, refl, sym, ap, ◌∙◌, subst, Bool, true, false, List, [], ◌∷◌, map, All,
  arith, if◌then◌else◌, Bool-cases,
}
use server_demo.Timer.Manager.{Timer, add64, update, insert, drop_cb, run_out}
use server_demo.Timer.Order.{
  Sorted, Absent, All_less-Absent, Sorted-update, insert-Sorted, All-insert,
}

-- No timer stands in the list twice.
abbrev pub Distinct : List ℕ → Type 0
Distinct [] = Unit {0}
Distinct (x ∷ xs) = Absent x xs × Distinct xs

pub Sorted-Distinct : (heap : ℕ → Timer) (xs : List ℕ) → Sorted heap xs → Distinct xs
Sorted-Distinct heap [] s = tt
Sorted-Distinct heap (x ∷ xs) s = (All_less-Absent heap x xs s.0, Sorted-Distinct heap xs s.1)

-- What the loop makes of a timer that ran out.
abbrev pub ran_out : ℕ → Timer → Timer
ran_out now t = if t.recurring then record t { next = add64 now t.ms } else drop_cb t

-- One round of the loop, whichever branch it takes.
abbrev pub queued : (ℕ → Timer) → ℕ → ℕ → List ℕ → List ℕ
queued heap now a timers =
    if (heap a).recurring then insert (update heap a (ran_out now (heap a))) a timers else timers

pub run_out_step :
    (now a : ℕ) (expired timers : List ℕ) (heap : ℕ → Timer)
    → let rest =
        run_out now expired (update heap a (ran_out now (heap a))) (queued heap now a timers) in
      run_out now (a ∷ expired) heap timers ≡ ((heap a).cb ∷ rest.0, rest.1, rest.2)
unfolding run_out
run_out_step now a expired timers heap = elim (Bool-cases (heap a).recurring) [
  | inl again ↦ rw again
  | inr once ↦ rw once
]

map-update :
    (heap : ℕ → Timer) (a : ℕ) (t : Timer) (xs : List ℕ)
    → Absent a xs
    → map (λ x. (update heap a t x).cb) xs ≡ map (λ x. (heap x).cb) xs
map-update heap a t [] k = refl
map-update heap a t (x ∷ xs) k = ground (arith, k.0, map-update heap a t xs k.1)

update_other : (heap : ℕ → Timer) (a x : ℕ) (t : Timer) → x ≢ a → update heap a t x ≡ heap x
update_other heap a x t k = ground arith

update_same : (heap : ℕ → Timer) (a : ℕ) (t : Timer) → update heap a t a ≡ t
update_same heap a t = ground arith

-- The callbacks are those the timers had.
pub run_out-callbacks :
    (now : ℕ) (expired timers : List ℕ) (heap : ℕ → Timer)
    → Distinct expired
    → (run_out now expired heap timers).0 ≡ map (λ a. (heap a).cb) expired
run_out-callbacks now [] timers heap d = unfold run_out in refl
run_out-callbacks now (a ∷ expired) timers heap d =
    rw (run_out_step now a expired timers heap) (
      ap (◌∷◌ (heap a).cb)
        (run_out-callbacks now expired _ _ d.1 ∙ map-update heap a _ expired d.0))

-- Timers outside the list stay as they are.
pub run_out-other :
    (now : ℕ) (expired timers : List ℕ) (heap : ℕ → Timer) (x : ℕ)
    → Absent x expired
    → (run_out now expired heap timers).1 x ≡ heap x
run_out-other now [] timers heap x k = unfold run_out in refl
run_out-other now (a ∷ expired) timers heap x k =
    rw (run_out_step now a expired timers heap)
      (run_out-other now expired _ _ x k.1 ∙ update_other heap a x _ (λ e. k.0 (sym e)))

each_back :
    (now a : ℕ) (t : Timer) (heap F : ℕ → Timer) (xs : List ℕ)
    → Absent a xs
    → All (λ b. F b ≡ ran_out now (update heap a t b)) xs
    → All (λ b. F b ≡ ran_out now (heap b)) xs
each_back now a t heap F [] k h = tt
each_back now a t heap F (x ∷ xs) k h =
    (h.0 ∙ ap (ran_out now) (update_other heap a x t k.0), each_back now a t heap F xs k.1 h.1)

-- Each timer of the list is run out.
pub run_out-each :
    (now : ℕ) (expired timers : List ℕ) (heap : ℕ → Timer)
    → Distinct expired
    → All (λ a. (run_out now expired heap timers).1 a ≡ ran_out now (heap a)) expired
run_out-each now [] timers heap d = tt
run_out-each now (a ∷ expired) timers heap d =
    let t = ran_out now (heap a) in
    let left = queued heap now a timers in
    subst (λ r. All (λ b. r.1 b ≡ ran_out now (heap b)) (a ∷ expired))
      (sym (run_out_step now a expired timers heap))
      (
        run_out-other now expired left (update heap a t) a d.0 ∙ ap (λ x. x) (update_same heap a t),
        each_back now a t heap _ expired d.0 (run_out-each now expired left (update heap a t) d.1),
      )

-- What the loop needs of the set, and leaves true of it.
pub record Splits (n : ℕ) (heap : ℕ → Timer) (expired timers : List ℕ) : Type 0 where
  pub sorted : Sorted heap timers
  pub made : All (λ x. x < n) timers
  pub taken_made : All (λ x. x < n) expired
  pub distinct : Distinct expired
  pub apart : All (λ a. Absent a timers) expired

either {κ} :
    (P : List ℕ → Type κ) (b : Bool) (xs ys : List ℕ) → P xs → P ys → P (if b then xs else ys)
either P true xs ys h k = h
either P false xs ys h k = k

Absent-queued :
    (heap : ℕ → Timer) (now a b : ℕ) (timers : List ℕ)
    → a ≢ b
    → Absent a timers
    → Absent b timers
    → Absent b (queued heap now a timers)
Absent-queued heap now a b timers other k h =
    either (Absent b) (heap a).recurring _ timers (All-insert (λ x. x ≢ b) _ a timers k other h) h

apart-queued :
    (heap : ℕ → Timer) (now a : ℕ) (expired timers : List ℕ)
    → Absent a expired
    → Absent a timers
    → All (λ b. Absent b timers) expired
    → All (λ b. Absent b (queued heap now a timers)) expired
apart-queued heap now a [] timers d k h = tt
apart-queued heap now a (b ∷ expired) timers d k h = (
  Absent-queued heap now a b timers (λ e. d.0 (sym e)) k h.0,
  apart-queued heap now a expired timers d.1 k h.1,
)

pub Splits-step :
    (n : ℕ) (heap : ℕ → Timer) (now a : ℕ) (expired timers : List ℕ)
    → Splits n heap (a ∷ expired) timers
    → Splits n (update heap a (ran_out now (heap a))) expired (queued heap now a timers)
Splits-step n heap now a expired timers s =
    let moved = Sorted-update heap a (ran_out now (heap a)) timers s.apart.0 s.sorted in
    record {
      sorted =
          either (Sorted (update heap a (ran_out now (heap a)))) (heap a).recurring _ timers
            (insert-Sorted _ a timers s.apart.0 moved) moved;
      made =
          either (All (λ x. x < n)) (heap a).recurring _ timers
            (All-insert (λ x. x < n) _ a timers s.apart.0 s.taken_made.0 s.made) s.made;
      taken_made = s.taken_made.1;
      distinct = s.distinct.1;
      apart = apart-queued heap now a expired timers s.distinct.0 s.apart.0 s.apart.1;
    }

pub run_out-Sorted :
    (n now : ℕ) (expired timers : List ℕ) (heap : ℕ → Timer)
    → Splits n heap expired timers
    → let r = run_out now expired heap timers in Sorted r.1 r.2 × All (λ x. x < n) r.2
run_out-Sorted n now [] timers heap s = unfold run_out in (s.sorted, s.made)
run_out-Sorted n now (a ∷ expired) timers heap s =
    subst (λ r. Sorted r.1 r.2 × All (λ x. x < n) r.2)
      (sym (run_out_step now a expired timers heap))
      (run_out-Sorted n now expired _ _ (Splits-step n heap now a expired timers s))
