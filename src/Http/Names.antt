-- ===== src/Http/Names.antt =====
-- Names of headers that differ in case only.
use server_demo.Common.{
  ℕ, ◌≡◌, ◌↔◌, refl, true, false, ◌&&◌, List, [], ◌∷◌, arith, if◌then◌else◌, Bool-cases, inl, inr,
  Bool, ◌∙◌, sym, ◌+◌, ◌||◌, ◌==◌, leb,
}
use server_demo.Http.Bytes.{
  fold, to_lower, c_str, case_insensitive_less, bytes_less_irreflexive, bytes_less_total,
}
use server_demo.Http.Headers.{equivalent}

-- Two keys are equivalent if they differ in case only.
pub equivalent_iff : (k x : List ℕ) → (equivalent k x ≡ true) ↔ (fold k ≡ fold x)
unfolding equivalent case_insensitive_less
equivalent_iff k x = (
  (λ h. bytes_less_total (fold k) (fold x) (ground (arith, h)) (ground (arith, h))),
  (λ e. let off = bytes_less_irreflexive (fold x) in rw (e, off) refl),
)

-- Two bytes that are the same letter, and two names that differ in case only. A zero ends a name.
abbrev pub is_upper : ℕ → Bool
is_upper c = leb 65 c && leb c 90

abbrev pub same_letter : ℕ → ℕ → Bool
same_letter c d = c == d || ((is_upper c && d == c + 32) || (is_upper d && c == d + 32))

abbrev pub same_name : List ℕ → List ℕ → Bool
same_name [] [] = true
same_name [] (d ∷ t) = d == 0
same_name (c ∷ s) [] = c == 0
same_name (c ∷ s) (d ∷ t) =
    let rest = same_name s t in
    if c == 0 then d == 0 else if d == 0 then false else same_letter c d && rest

same_letter_iff : (c d : ℕ) → (same_letter c d ≡ true) ↔ (to_lower c ≡ to_lower d)
same_letter_iff c d = (λ h. ground (arith, h), λ e. ground (arith, e))

fold-cons : (c : ℕ) (s : List ℕ) → fold (c ∷ s) ≡ (if c == 0 then [] else to_lower c ∷ fold s)
unfolding fold c_str
fold-cons c s = elim (Bool-cases (c == 0)) [ inl z ↦ rw z refl | inr n ↦ rw n refl ]

fold-nil : fold [] ≡ []
unfolding fold c_str
fold-nil = refl

-- The tests of a name against its end, and of two bytes.
nil_iff : (b : Bool) (x : ℕ) (xs : List ℕ) → (b ≡ true) ↔ ([] ≡ (if b then [] else x ∷ xs))
nil_iff true x xs = (λ h. refl, λ e. refl)
nil_iff false x xs = (λ h. cc h, λ e. cc e)

flip_iff : (b : Bool) (xs ys : List ℕ) → (b ≡ true) ↔ (xs ≡ ys) → (b ≡ true) ↔ (ys ≡ xs)
flip_iff b xs ys f = (λ h. sym (f.0 h), λ e. f.1 (sym e))

cons_iff :
    (a b m n : Bool) (x y : ℕ) (xs ys : List ℕ)
    → (m ≡ true) ↔ (x ≡ y)
    → (n ≡ true) ↔ (xs ≡ ys)
    → ((if a then b else if b then false else m && n) ≡ true)
      ↔ ((if a then [] else x ∷ xs) ≡ (if b then [] else y ∷ ys))
cons_iff true true m n x y xs ys f g = (λ h. refl, λ e. refl)
cons_iff true false m n x y xs ys f g = (λ h. cc h, λ e. cc e)
cons_iff false true m n x y xs ys f g = (λ h. cc h, λ e. cc e)
cons_iff false false m n x y xs ys f g = (
  λ h.
      let first : x ≡ y = f.0 (ground (arith, h)) in
      let rest : xs ≡ ys = g.0 (ground (arith, h)) in cc (first, rest),
  λ e.
      let first : m ≡ true = f.1 (cc e) in
      let rest : n ≡ true = g.1 (cc e) in rw (first, rest) refl,
)

same_name_iff : (k x : List ℕ) → (same_name k x ≡ true) ↔ (fold k ≡ fold x)
same_name_iff [] [] = (λ h. refl, λ e. refl)
same_name_iff [] (d ∷ t) = rw (fold-nil, fold-cons d t) (nil_iff (d == 0) (to_lower d) (fold t))
same_name_iff (c ∷ s) [] =
    rw (fold-nil, fold-cons c s)
      (flip_iff (c == 0) [] (if c == 0 then [] else to_lower c ∷ fold s)
        (nil_iff (c == 0) (to_lower c) (fold s)))
same_name_iff (c ∷ s) (d ∷ t) =
    rw (fold-cons c s, fold-cons d t)
      (cons_iff (c == 0) (d == 0) (same_letter c d) (same_name s t) (to_lower c) (to_lower d)
        (fold s) (fold t) (same_letter_iff c d) (same_name_iff s t))

-- So the comparator tells names apart that differ in more than case.
pub equivalent-same_name : (k x : List ℕ) → equivalent k x ≡ same_name k x
equivalent-same_name k x = elim (Bool-cases (same_name k x)) [
  | inl alike ↦ (equivalent_iff k x).1 ((same_name_iff k x).0 alike) ∙ sym alike
  | inr apart ↦ elim (Bool-cases (equivalent k x)) [
    | inl equal ↦
        let same = (same_name_iff k x).1 ((equivalent_iff k x).0 equal) in absurd (cc (same, apart))
    | inr unequal ↦ unequal ∙ sym apart
  ]
]
