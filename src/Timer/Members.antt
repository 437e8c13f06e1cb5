-- ===== src/Timer/Members.antt =====
-- Which timers stand in the set once `listExpiredCb` is through.
use server_demo.Common.{
  ℕ, ◌≡◌, inl, inr, refl, sym, ap, ◌∙◌, Bool, true, false, List, [], ◌∷◌, ◌++◌, arith, Option, ◌==◌,
  if◌then◌else◌,
}
use server_demo.Timer.Manager.{Timer, update, insert, run_out}
use server_demo.Timer.Order.{Absent, insert_front, insert_behind, less_total}
use server_demo.Timer.RunOut.{ran_out, queued, run_out_step, Splits, Splits-step}

abbrev pub is_in : ℕ → List ℕ → Bool
is_in x [] = false
is_in x (y ∷ ys) = if y == x then true else is_in x ys

is_in-Absent : (x : ℕ) (xs : List ℕ) → Absent x xs → is_in x xs ≡ false
is_in-Absent x [] k = refl
is_in-Absent x (y ∷ ys) k = ground (arith, k.0, is_in-Absent x ys k.1)

pub is_in-append :
    (x : ℕ) (xs ys : List ℕ) → is_in x (xs ++ ys) ≡ (if is_in x xs then true else is_in x ys)
is_in-append x [] ys = refl
is_in-append x (z ∷ xs) ys = ground (arith, is_in-append x xs ys)

is_in-insert :
    (heap : ℕ → Timer) (a x : ℕ) (xs : List ℕ)
    → Absent a xs
    → is_in x (insert heap a xs) ≡ (if a == x then true else is_in x xs)
is_in-insert heap a x [] k = unfold insert in refl
is_in-insert heap a x (y ∷ ys) k = elim (less_total heap a y (λ e. k.0 (sym e))) [
  | inl front ↦ rw (insert_front heap a y ys front) refl
  | inr behind ↦
      rw (insert_behind heap a y ys behind) (ground (arith, is_in-insert heap a x ys k.1))
]

-- A round of the loop puts its timer into the set if it recurs.
is_in-queued :
    (heap : ℕ → Timer) (now a x : ℕ) (timers : List ℕ)
    → Absent a timers
    → is_in x (queued heap now a timers) ≡ (if a == x then (heap a).recurring else is_in x timers)
is_in-queued heap now a x timers k =
    is_in-if (heap a).recurring (insert (update heap a (ran_out now (heap a))) a timers)
    ∙ ap (λ i. if (heap a).recurring then i else is_in x timers)
        (is_in-insert (update heap a (ran_out now (heap a))) a x timers k)
    ∙ either_way (heap a).recurring
  where
    is_in-if :
        (b : Bool) (xs : List ℕ)
        → is_in x (if b then xs else timers) ≡ (if b then is_in x xs else is_in x timers)
    is_in-if true xs = refl
    is_in-if false xs = refl

    either_way :
        (b : Bool)
        → (if b then (if a == x then true else is_in x timers) else is_in x timers)
          ≡ (if a == x then b else is_in x timers)
    either_way true = refl
    either_way false = ground (arith, is_in-Absent a timers k)

-- The timers that ran out are in the set exactly if they recur, the others if they were.
abbrev pub in_after : (ℕ → Timer) → List ℕ → List ℕ → ℕ → Bool
in_after heap expired timers x = if is_in x expired then (heap x).recurring else is_in x timers

in_after-step :
    (n : ℕ) (heap : ℕ → Timer) (now a x : ℕ) (expired timers : List ℕ)
    → Absent a expired
    → Absent a timers
    → in_after (update heap a (ran_out now (heap a))) expired (queued heap now a timers) x
      ≡ in_after heap (a ∷ expired) timers x
in_after-step n heap now a x expired timers off k =
    ground (arith, is_in-queued heap now a x timers k, is_in-Absent a expired off)

pub is_in-run_out :
    (n now x : ℕ) (expired timers : List ℕ) (heap : ℕ → Timer)
    → Splits n heap expired timers
    → is_in x (run_out now expired heap timers).2 ≡ in_after heap expired timers x
is_in-run_out n now x [] timers heap s = unfold run_out in refl
is_in-run_out n now x (a ∷ expired) timers heap s =
    ap (λ (r : List (Option ℕ) × (ℕ → Timer) × List ℕ). is_in x r.2)
      (run_out_step now a expired timers heap)
    ∙ is_in-run_out n now x expired _ _ (Splits-step n heap now a expired timers s)
    ∙ in_after-step n heap now a x expired timers s.distinct.0 s.apart.0

-- It does not matter whether the set still has the timers that ran out.
pub in_after-append :
    (heap : ℕ → Timer) (x : ℕ) (expired timers : List ℕ)
    → in_after heap expired timers x ≡ in_after heap expired (expired ++ timers) x
in_after-append heap x expired timers = ground (arith, is_in-append x expired timers)
