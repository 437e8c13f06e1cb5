-- ===== src/Timer/Due.antt =====
-- Which timers `listExpiredCb` takes out of the set.
use server_demo.Common.{
  ℕ, ◌≤◌, ◌<◌, ◌≡◌, inl, inr, refl, Bool, true, false, some, List, [], ◌∷◌, ◌++◌, append-nil, All,
  arith, leb, if◌then◌else◌, Bool-cases,
}
use server_demo.Timer.Manager.{Timer, comparator, less, lower_bound, skip_equal, split_expired}
use server_demo.Timer.Order.{Sorted}

-- The timers that are due at `now`, in the order of the set.
abbrev pub due : (ℕ → Timer) → ℕ → List ℕ → List ℕ
due heap now [] = []
due heap now (x ∷ xs) = if leb (heap x).next now then x ∷ due heap now xs else due heap now xs

module _ (heap : ℕ → Timer) (now key : ℕ) where
  -- Behind a timer that is not due there is none that is.
  pub none_due :
      (x : ℕ) (xs : List ℕ)
      → now < (heap x).next
      → All (λ y. less heap x y ≡ true) xs
      → due heap now xs ≡ []
  none_due x [] h l = refl
  none_due x (y ∷ xs) h l = ground (arith, none_due x xs h l.1, l.0)

  skip_equal-due :
      (xs : List ℕ)
      → Sorted heap xs
      → All (λ x. now ≤ (heap x).next) xs
      → ((skip_equal heap now xs).0 ≡ due heap now xs)
        × ((skip_equal heap now xs).0 ++ (skip_equal heap now xs).1 ≡ xs)
  unfolding skip_equal
  skip_equal-due [] s h = (refl, refl)
  skip_equal-due (x ∷ xs) s h =
      let (ih, whole) = skip_equal-due xs s.1 h.1 in
      ground (arith, ih, whole, h.0, none_due x xs, s.0)

  not_before :
      (x : ℕ) (xs : List ℕ)
      → now ≤ (heap x).next
      → All (λ y. less heap x y ≡ true) xs
      → All (λ y. now ≤ (heap y).next) xs
  not_before x [] h l = tt
  not_before x (y ∷ xs) h l = (ground (arith, l.0), not_before x xs h l.1)

  -- Without a rollover the iterator comes to stand behind the due timers, wherever `now_timer` was
  -- allocated.
  pub split_expired-due :
      (xs : List ℕ)
      → Sorted heap xs
      → ((split_expired false heap now key xs).0 ≡ due heap now xs)
        × ((split_expired false heap now key xs).0 ++ (split_expired false heap now key xs).1 ≡ xs)
  unfolding split_expired lower_bound skip_equal
  split_expired-due [] s = (refl, refl)
  split_expired-due (x ∷ xs) s =
      elim (Bool-cases (comparator (some ((heap x).next, x)) (some (now, key)))) [
        | inl before ↦
            let (ih, whole) = split_expired-due xs s.1 in ground (arith, before, ih, whole)
        | inr behind ↦
            let later : now ≤ (heap x).next = ground (arith, behind) in
            let (ih, whole) = skip_equal-due (x ∷ xs) s (later, not_before x xs later s.0) in
            ground (arith, behind, ih, whole)
      ]

-- The timers that run out: all of them where the clock went back.
abbrev pub gone : (ℕ → Timer) → ℕ → Bool → List ℕ → List ℕ
gone heap now true timers = timers
gone heap now false timers = due heap now timers

pub split_expired-gone :
    (heap : ℕ → Timer) (now key : ℕ) (rollover : Bool) (xs : List ℕ)
    → Sorted heap xs
    → let split = split_expired rollover heap now key xs in
      (split.0 ≡ gone heap now rollover xs) × (split.0 ++ split.1 ≡ xs)
unfolding split_expired
split_expired-gone heap now key true xs s = (refl, append-nil xs)
split_expired-gone heap now key false xs s = split_expired-due heap now key xs s
