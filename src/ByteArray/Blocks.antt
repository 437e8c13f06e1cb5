-- ===== src/ByteArray/Blocks.antt =====
-- The chain seen as one flat memory: laws of `flatten` and of a memcpy into flat memory.
use server_demo.Common.{
  ℕ, zero, suc, ◌+◌, ◌-◌, ◌*◌, ◌≤◌, ◌≡◌, refl, ap, sym, ◌∙◌, List, [], ◌∷◌, ◌++◌, flatten, All,
  append-nil, append_assoc, arith, length, take, drop, replicate, length-append, length-take,
  length-drop, length-replicate, drop_all, take-append-drop, take-append_left, drop-append_left,
  drop-append_right,
}
use server_demo.ByteArray.State.{Node}
use server_demo.ByteArray.Buffer.{copy_in}

-- Every block of the chain has the size `base`.
abbrev pub Blocks : ℕ → List Node → Type 0
Blocks base = All (λ node. length node ≡ base)

pub Blocks-append :
    (base : ℕ) (xs ys : List Node) → Blocks base xs → Blocks base ys → Blocks base (xs ++ ys)
Blocks-append base [] ys h k = k
Blocks-append base (x ∷ xs) ys h k = (h.0, Blocks-append base xs ys h.1 k)

pub Blocks-replicate : (base n fresh : ℕ) → Blocks base (replicate n (replicate base fresh))
Blocks-replicate base zero fresh = tt
Blocks-replicate base (suc n) fresh = (length-replicate base fresh, Blocks-replicate base n fresh)

pub flatten-append : (xs ys : List Node) → flatten (xs ++ ys) ≡ flatten xs ++ flatten ys
unfolding flatten
flatten-append [] ys = refl
flatten-append (x ∷ xs) ys =
    rw (flatten-append xs ys) (sym (append_assoc x (flatten xs) (flatten ys)))

pub flatten-snoc : (xs : List Node) (x : Node) → flatten (xs ++ (x ∷ [])) ≡ flatten xs ++ x
unfolding flatten
flatten-snoc xs x = flatten-append xs (x ∷ []) ∙ rw append-nil

pub length-flatten :
    (base : ℕ) (xs : List Node) → Blocks base xs → length (flatten xs) ≡ base * length xs
unfolding flatten
length-flatten base [] h = omega arith
length-flatten base (x ∷ xs) h =
    omega (arith, length-append x (flatten xs), length-flatten base xs h.1, h.0)

-- A memcpy that ends inside the first part of the memory.
pub copy_in-append_left :
    (npos : ℕ) (buf xs ys : List ℕ)
    → npos + length buf ≤ length xs
    → copy_in (xs ++ ys) npos buf ≡ copy_in xs npos buf ++ ys
unfolding copy_in
copy_in-append_left npos buf xs ys h = simp (
  take-append_left npos xs ys (omega arith),
  drop-append_left (npos + length buf) xs ys h,
  append_assoc,
)

-- One that starts in the first part and goes on in the second is two.
pub copy_in-append_split :
    (npos : ℕ) (buf xs ys : List ℕ)
    → npos ≤ length xs
    → length xs - npos ≤ length buf
    → copy_in (xs ++ ys) npos buf
      ≡ copy_in xs npos (take (length xs - npos) buf) ++ copy_in ys 0 (drop (length xs - npos) buf)
unfolding copy_in
copy_in-append_split npos buf xs ys h k =
    let ncap = length xs - npos in
    simp
      (
        take-append_left npos xs ys h,
        drop-append_right (npos + length buf) (0 + length (drop ncap buf)) xs ys
            (omega (arith, length-drop ncap buf)),
        drop_all (npos + length (take ncap buf)) xs (omega (arith, length-take ncap buf)),
        append-nil,
        append_assoc,
      )
      (ap (◌++◌ (take npos xs)) (
        ap (λ z. z ++ drop (0 + length (drop ncap buf)) ys) (sym (take-append-drop ncap buf))
        ∙ append_assoc (take ncap buf) (drop ncap buf) _))

pub length-copy_in :
    (npos : ℕ) (buf xs : List ℕ)
    → npos + length buf ≤ length xs
    → length (copy_in xs npos buf) ≡ length xs
unfolding copy_in
length-copy_in npos buf xs h = omega (
  arith,
  length-append (take npos xs) (buf ++ drop (npos + length buf) xs),
  length-append buf (drop (npos + length buf) xs),
  length-take npos xs,
  length-drop (npos + length buf) xs,
)
