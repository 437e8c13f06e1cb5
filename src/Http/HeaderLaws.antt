-- ===== src/Http/HeaderLaws.antt =====
-- A header that is set is found under every spelling of its name, and one that is deleted under none.
use server_demo.Common.{
  ℕ, ◌≡◌, refl, true, false, not, ◌&&◌, none, some, List, [], ◌∷◌, All, arith, if◌then◌else◌,
  Bool-cases, inl, inr, ap, ◌∙◌,
}
use server_demo.Http.Bytes.{fold, case_insensitive_less, bytes_less_trans}
use server_demo.Http.Names.{same_name, equivalent_iff, equivalent-same_name}
use server_demo.Http.Headers.{MapType, equivalent, find, set_header, del_header}

equivalent_lem :
    (k x : List ℕ)
    → equivalent k x ≡ (not (case_insensitive_less k x) && not (case_insensitive_less x k))
unfolding equivalent
equivalent_lem k x = refl

find-set_equivalent :
    (k j v : List ℕ) (m : MapType)
    → find j (set_header k v m) ≡ (if equivalent j k then some v else find j m)
unfolding find set_header
find-set_equivalent k j v [] = refl
find-set_equivalent k j v ((x, w) ∷ m) = ground (
  arith,
  find-set_equivalent k j v m,
  equivalent_lem k x,
  equivalent_iff j k,
  equivalent_iff j x,
  equivalent_iff k x,
)

-- After `setHeader` a search finds the value under every key that differs in case only, and under
-- any other key what it found before.
pub find-set_header :
    (k j v : List ℕ) (m : MapType)
    → find j (set_header k v m) ≡ (if same_name j k then some v else find j m)
find-set_header k j v m =
    find-set_equivalent k j v m
    ∙ ap (λ b. if b then some v else find j m) (equivalent-same_name j k)

-- The entries are in strict order.
abbrev pub Sorted : MapType → Type 0
Sorted [] = Unit {0}
Sorted ((k, v) ∷ m) = All (λ (e : List ℕ × List ℕ). case_insensitive_less k e.0 ≡ true) m × Sorted m

All-set :
    (P : List ℕ → Type 0) (k v : List ℕ) (m : MapType)
    → P k
    → All (λ (e : List ℕ × List ℕ). P e.0) m
    → All (λ (e : List ℕ × List ℕ). P e.0) (set_header k v m)
unfolding set_header
All-set P k v [] p h = (p, tt)
All-set P k v ((x, w) ∷ m) p h = elim (Bool-cases (case_insensitive_less k x)) [
  | inl front ↦ rw front (p, h)
  | inr not_front ↦ elim (Bool-cases (case_insensitive_less x k)) [
    | inl behind ↦ rw (not_front, behind) (h.0, All-set P k v m p h.1)
    | inr here ↦ rw (not_front, here) h
  ]
]

less_trans :
    (k x y : List ℕ)
    → case_insensitive_less k x ≡ true
    → case_insensitive_less x y ≡ true
    → case_insensitive_less k y ≡ true
unfolding case_insensitive_less
less_trans k x y h l = bytes_less_trans (fold k) (fold x) (fold y) h l

All-less_trans :
    (k x : List ℕ) (m : MapType)
    → case_insensitive_less k x ≡ true
    → All (λ (e : List ℕ × List ℕ). case_insensitive_less x e.0 ≡ true) m
    → All (λ (e : List ℕ × List ℕ). case_insensitive_less k e.0 ≡ true) m
All-less_trans k x [] h l = tt
All-less_trans k x ((y, w) ∷ m) h l = (less_trans k x y h l.0, All-less_trans k x m h l.1)

-- A set keeps the order.
pub set_header-Sorted : (k v : List ℕ) (m : MapType) → Sorted m → Sorted (set_header k v m)
unfolding set_header
set_header-Sorted k v [] s = (tt, tt)
set_header-Sorted k v ((x, w) ∷ m) s = elim (Bool-cases (case_insensitive_less k x)) [
  | inl front ↦ rw front ((front, All-less_trans k x m front s.0), s)
  | inr not_front ↦ elim (Bool-cases (case_insensitive_less x k)) [
    | inl behind ↦
        rw (not_front, behind)
          (
            All-set (λ y. case_insensitive_less x y ≡ true) k v m behind s.0,
            set_header-Sorted k v m s.1,
          )
    | inr here ↦ rw (not_front, here) s
  ]
]

-- Behind an entry no key is equivalent to its own.
find_behind :
    (j x : List ℕ) (m : MapType)
    → equivalent j x ≡ true
    → All (λ (e : List ℕ × List ℕ). case_insensitive_less x e.0 ≡ true) m
    → find j m ≡ none
unfolding find
find_behind j x [] h l = refl
find_behind j x ((y, w) ∷ m) h l =
    let differs : equivalent x y ≡ false = rw (equivalent_lem x y, l.0) (ground arith) in
    ground (
      arith,
      differs,
      find_behind j x m h l.1,
      equivalent_iff j x,
      equivalent_iff j y,
      equivalent_iff x y,
      h,
    )

-- After `delHeader` on a map in strict order a search fails under every key that differs in case
-- only, and finds under any other key what it found before.
pub find-del_header :
    (k j : List ℕ) (m : MapType)
    → Sorted m
    → find j (del_header k m) ≡ (if equivalent j k then none else find j m)
unfolding find del_header
find-del_header k j [] s = ground arith
find-del_header k j ((x, w) ∷ m) s = ground (
  arith,
  find-del_header k j m s.1,
  find_behind j x m,
  s.0,
  equivalent_iff j k,
  equivalent_iff j x,
  equivalent_iff k x,
)
