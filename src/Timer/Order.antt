-- ===== src/Timer/Order.antt =====
-- The set of timers: its order, and what insertion, search and a change of one timer do to it.
use server_demo.Common.{
  ℕ, ◌≡◌, ◌≢◌, ◌⊎◌, inl, inr, sym, subst, true, not, ◌&&◌, some, List, [], ◌∷◌, All, arith,
  Bool-cases, Option-cases,
}
use mathlib.Core.List.Perm
use mathlib.Core.List.{Perm}
use server_demo.Timer.Manager.{Timer, update, less, insert, find_erase}

-- Every timer comes before all that stand behind it.
abbrev pub Sorted : (ℕ → Timer) → List ℕ → Type 0
Sorted heap [] = Unit {0}
Sorted heap (x ∷ xs) = All (λ y. less heap x y ≡ true) xs × Sorted heap xs

abbrev pub Absent : ℕ → List ℕ → Type 0
Absent a = All (λ x. x ≢ a)

-- The timers of one heap compare the same in another one that agrees on them.
less-update :
    (heap : ℕ → Timer) (a x y : ℕ) (t : Timer)
    → x ≢ a
    → y ≢ a
    → less (update heap a t) x y ≡ less heap x y
less-update heap a x y t h k = ground arith

module _ (heap : ℕ → Timer) (a : ℕ) (t : Timer) where
  All-less-update :
      (x : ℕ) (xs : List ℕ)
      → x ≢ a
      → Absent a xs
      → All (λ y. less heap x y ≡ true) xs
      → All (λ y. less (update heap a t) x y ≡ true) xs
  All-less-update x [] h k l = tt
  All-less-update x (y ∷ xs) h k l =
      (rw (less-update heap a x y t h k.0) l.0, All-less-update x xs h k.1 l.1)

  -- A change of a timer outside the set keeps the order.
  pub Sorted-update : (xs : List ℕ) → Absent a xs → Sorted heap xs → Sorted (update heap a t) xs
  Sorted-update [] k s = tt
  Sorted-update (x ∷ xs) k s = (All-less-update x xs k.0 k.1 s.0, Sorted-update xs k.1 s.1)

less_trans :
    (heap : ℕ → Timer) (x y z : ℕ)
    → less heap x y ≡ true
    → less heap y z ≡ true
    → less heap x z ≡ true
less_trans heap x y z h k = ground arith

pub less_total :
    (heap : ℕ → Timer) (x y : ℕ) → x ≢ y → (less heap x y ≡ true) ⊎ (less heap y x ≡ true)
less_total heap x y h = ground arith

-- No timer comes before itself, so a timer in front of all of these is none of them.
pub All_less-Absent :
    (heap : ℕ → Timer) (x : ℕ) (xs : List ℕ) → All (λ y. less heap x y ≡ true) xs → Absent x xs
All_less-Absent heap x [] h = tt
All_less-Absent heap x (y ∷ xs) h =
    ((λ e. irreflexive (subst (λ z. less heap x z ≡ true) e h.0)), All_less-Absent heap x xs h.1)
  where
    irreflexive : less heap x x ≡ true → ⊥
    irreflexive l = ground arith

All-less_trans :
    (heap : ℕ → Timer) (x y : ℕ) (xs : List ℕ)
    → less heap x y ≡ true
    → All (λ z. less heap y z ≡ true) xs
    → All (λ z. less heap x z ≡ true) xs
All-less_trans heap x y [] h k = tt
All-less_trans heap x y (z ∷ xs) h k =
    (less_trans heap x y z h k.0, All-less_trans heap x y xs h k.1)

-- The tests of `insert` at an element that is another one.
pub insert_front :
    (heap : ℕ → Timer) (a x : ℕ) (xs : List ℕ)
    → less heap a x ≡ true
    → insert heap a (x ∷ xs) ≡ a ∷ x ∷ xs
unfolding insert
insert_front heap a x xs h = rw h

pub insert_behind :
    (heap : ℕ → Timer) (a x : ℕ) (xs : List ℕ)
    → less heap x a ≡ true
    → insert heap a (x ∷ xs) ≡ x ∷ insert heap a xs
unfolding insert
insert_behind heap a x xs h = ground arith

pub All-insert {κ} :
    (P : ℕ → Type κ) (heap : ℕ → Timer) (a : ℕ) (xs : List ℕ)
    → Absent a xs
    → P a
    → All P xs
    → All P (insert heap a xs)
unfolding insert
All-insert P heap a [] k p h = (p, tt)
All-insert P heap a (x ∷ xs) k p h = elim (less_total heap a x (λ e. k.0 (sym e))) [
  | inl front ↦ rw (insert_front heap a x xs front) (p, h)
  | inr behind ↦ rw (insert_behind heap a x xs behind) (h.0, All-insert P heap a xs k.1 p h.1)
]

-- The new timer takes its place in the order.
pub insert-Sorted :
    (heap : ℕ → Timer) (a : ℕ) (xs : List ℕ)
    → Absent a xs
    → Sorted heap xs
    → Sorted heap (insert heap a xs)
unfolding insert
insert-Sorted heap a [] k s = (tt, tt)
insert-Sorted heap a (x ∷ xs) k s = elim (less_total heap a x (λ e. k.0 (sym e))) [
  | inl front ↦
      rw (insert_front heap a x xs front) ((front, All-less_trans heap a x xs front s.0), s)
  | inr behind ↦ rw (insert_behind heap a x xs behind) (
    All-insert (λ y. less heap x y ≡ true) heap a xs k.1 behind s.0,
    insert-Sorted heap a xs k.1 s.1,
  )
]

-- It is in the set, with all that were there.
pub insert-perm :
    (heap : ℕ → Timer) (a : ℕ) (xs : List ℕ) → Absent a xs → Perm (insert heap a xs) (a ∷ xs)
unfolding insert
insert-perm heap a [] k = Perm.refl _
insert-perm heap a (x ∷ xs) k = elim (less_total heap a x (λ e. k.0 (sym e))) [
  | inl front ↦ rw (insert_front heap a x xs front) (Perm.refl _)
  | inr behind ↦
      rw (insert_behind heap a x xs behind)
        (Perm.trans (Perm.cons x (insert-perm heap a xs k.1)) (Perm.swap a x xs))
]

found : (heap : ℕ → Timer) (a x : ℕ) → (not (less heap a x) && not (less heap x a)) ≡ true → x ≡ a
found heap a x h = ground arith

-- A search that succeeds stops at the timer itself, or goes on behind another one.
find_erase_cases :
    (heap : ℕ → Timer) (a x : ℕ) (xs ys : List ℕ)
    → find_erase heap a (x ∷ xs) ≡ some ys
    → ((x ≡ a) × (xs ≡ ys)) ⊎ ((zs : List ℕ) × (find_erase heap a xs ≡ some zs) × (x ∷ zs ≡ ys))
unfolding find_erase
find_erase_cases heap a x xs ys e = elim (Bool-cases (not (less heap a x) && not (less heap x a))) [
  | inl hit ↦ inl (found heap a x hit, ground (arith, hit, e))
  | inr miss ↦ elim (Option-cases (find_erase heap a xs)) [
    | inl nowhere ↦ absurd (ground (arith, miss, nowhere, e))
    | inr (zs, there) ↦ inr (zs, there, ground (arith, miss, there, e))
  ]
]

find_erase-nil : (heap : ℕ → Timer) (a : ℕ) (ys : List ℕ) → find_erase heap a [] ≢ some ys
unfolding find_erase
find_erase-nil heap a ys e = cc

pub find_erase-All {κ} :
    (P : ℕ → Type κ) (heap : ℕ → Timer) (a : ℕ) (xs ys : List ℕ)
    → find_erase heap a xs ≡ some ys
    → All P xs
    → All P ys
find_erase-All P heap a [] ys e h = absurd (find_erase-nil heap a ys e)
find_erase-All P heap a (x ∷ xs) ys e h = elim (find_erase_cases heap a x xs ys e) [
  | inl (_, same) ↦ subst (All P) same h.1
  | inr (zs, there, shape) ↦ subst (All P) shape (h.0, find_erase-All P heap a xs zs there h.1)
]

pub find_erase_hit {κ} :
    (P : ℕ → Type κ) (heap : ℕ → Timer) (a : ℕ) (xs ys : List ℕ)
    → find_erase heap a xs ≡ some ys
    → All P xs
    → P a
find_erase_hit P heap a [] ys e h = absurd (find_erase-nil heap a ys e)
find_erase_hit P heap a (x ∷ xs) ys e h = elim (find_erase_cases heap a x xs ys e) [
  | inl (hit, _) ↦ subst P hit h.0
  | inr (zs, there, _) ↦ find_erase_hit P heap a xs zs there h.1
]

-- What a search that succeeds has taken out.
pub record Erased (heap : ℕ → Timer) (a : ℕ) (xs ys : List ℕ) : Type 0 where
  pub perm : Perm xs (a ∷ ys)
  pub absent : Absent a ys
  pub sorted : Sorted heap ys

Erased-here :
    (heap : ℕ → Timer) (a x : ℕ) (xs : List ℕ)
    → Sorted heap (x ∷ xs)
    → x ≡ a
    → Erased heap a (x ∷ xs) xs
Erased-here heap a x xs s e = record {
  perm = rw e (Perm.refl _);
  absent = subst (λ z. Absent z xs) e (All_less-Absent heap x xs s.0);
  sorted = s.1;
}

pub find_erase-Erased :
    (heap : ℕ → Timer) (a : ℕ) (xs ys : List ℕ)
    → Sorted heap xs
    → find_erase heap a xs ≡ some ys
    → Erased heap a xs ys
find_erase-Erased heap a [] ys s e = absurd (find_erase-nil heap a ys e)
find_erase-Erased heap a (x ∷ xs) ys s e = elim (find_erase_cases heap a x xs ys e) [
  | inl (hit, same) ↦ subst (Erased heap a (x ∷ xs)) same (Erased-here heap a x xs s hit)
  | inr (zs, there, shape) ↦ subst (Erased heap a (x ∷ xs)) shape (
      behind zs ((All_less-Absent heap x (a ∷ []) (find_erase_hit _ heap a xs zs there s.0, tt)).0)
        (find_erase-Erased heap a xs zs s.1 there)
        (find_erase-All (λ y. less heap x y ≡ true) heap a xs zs there s.0))
]
  where
    behind :
        (zs : List ℕ)
        → a ≢ x
        → Erased heap a xs zs
        → All (λ y. less heap x y ≡ true) zs
        → Erased heap a (x ∷ xs) (x ∷ zs)
    behind zs other r l = record {
      perm = Perm.trans (Perm.cons x r.perm) (Perm.swap a x zs);
      absent = ((λ e. other (sym e)), r.absent);
      sorted = (l, r.sorted);
    }
