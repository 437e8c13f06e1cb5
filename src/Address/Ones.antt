-- ===== src/Address/Ones.antt =====
-- CountBytes counts the ones of a number in binary.
use Prim.Native.Nat.{bit_and, bit_and-bitwise}
use server_demo.Common.{
  ℕ, zero, suc, ◌+◌, ◌-◌, ◌*◌, ◌/◌, ◌%◌, ◌^◌, ◌≤◌, ◌<◌, ◌≡◌, refl, sym, ap, ◌∙◌, Option, none, some,
  arith, inl, inr, ◌==◌, ltb, if◌then◌else◌, Bool-cases, true, false,
}
use native.Mathlib.Nat.{pow-suc}
use server_demo.Common.Bits.{and_step}
use server_demo.Address.Prefix.{count_bytes}

-- The ones among the last `w` binary digits.
abbrev pub ones : ℕ → ℕ → ℕ
ones zero v = 0
ones (suc w) v = v % 2 + ones w (v / 2)

and_self : (n a : ℕ) → a ≤ n → bit_and a a ≡ a
and_self n zero h = refl
and_self zero (suc a) h = absurd (omega arith)
and_self (suc n) (suc a) h =
    omega (arith, and_step (suc a) (suc a), and_self n (suc a / 2) (omega arith))

zero_and : (b : ℕ) → bit_and 0 b ≡ 0
zero_and b = simp bit_and-bitwise

and_le : (n a b : ℕ) → a ≤ n → bit_and a b ≤ a
and_le n zero b h = rw (zero_and b) (omega arith)
and_le zero (suc a) b h = absurd (omega arith)
and_le (suc n) (suc a) b h =
    omega (arith, and_step (suc a) b, and_le n (suc a / 2) (b / 2) (omega arith))

-- The word after a round, by the last digit of the one before.
and-odd : (v : ℕ) → v % 2 ≡ 1 → bit_and v (v - 1) ≡ v / 2 * 2
and-odd v o =
    let half : (v - 1) / 2 ≡ v / 2 = omega arith in
    omega
      (arith, and_step v (v - 1), ap (bit_and (v / 2)) half, and_self (v / 2) (v / 2) (omega arith))

and-even : (v : ℕ) → v % 2 ≡ 0 → bit_and v (v - 1) ≡ bit_and (v / 2) (v / 2 - 1) * 2
and-even v e =
    let half : (v - 1) / 2 ≡ v / 2 - 1 = omega arith in
    omega (arith, and_step v (v - 1), ap (bit_and (v / 2)) half)

ones-double : (w v d : ℕ) → v ≡ d * 2 → ones (suc w) v ≡ ones w d
ones-double w v d e = let half : v / 2 ≡ d = omega arith in omega (arith, ap (ones w) half)

-- A round of the loop takes one of the ones away.
and_less : (w v : ℕ) → 0 < v → v < 2 ^ w → ones w (bit_and v (v - 1)) + 1 ≡ ones w v
and_less zero v p h = absurd (omega arith)
and_less (suc w) v p h = elim (Bool-cases (v % 2 == 0)) [
  | inl even ↦
      let e : v % 2 ≡ 0 = ground arith in
      let below : v / 2 < 2 ^ w = omega (arith, pow-suc 2 w) in
      omega (
        arith,
        ones-double w (bit_and v (v - 1)) (bit_and (v / 2) (v / 2 - 1)) (and-even v e),
        and_less w (v / 2) (omega arith) below,
      )
  | inr odd ↦
      let o : v % 2 ≡ 1 = ground arith in
      omega (arith, ones-double w (bit_and v (v - 1)) (v / 2) (and-odd v o))
]

ones-zero : (w : ℕ) → ones w 0 ≡ 0
ones-zero zero = refl
ones-zero (suc w) = omega (arith, ones-zero w)

-- What the count is, by the number of ones.
abbrev pub within : ℕ → ℕ → Option ℕ
within fuel n = if ltb fuel n then none else some n

within-zero : (fuel : ℕ) → within fuel 0 ≡ some 0
within-zero zero = refl
within-zero (suc fuel) = ground arith

abbrev one_more : Option ℕ → Option ℕ
one_more none = none
one_more (some n) = some (suc n)

within-suc : (fuel n : ℕ) → one_more (within fuel n) ≡ within (suc fuel) (suc n)
within-suc fuel n = elim (Bool-cases (ltb fuel n)) [
  | inl less ↦ let l : ltb (suc fuel) (suc n) ≡ true = ground arith in rw (less, l) refl
  | inr more ↦ let l : ltb (suc fuel) (suc n) ≡ false = ground arith in rw (more, l) refl
]

count_bytes-suc :
    (fuel v : ℕ) → count_bytes (suc fuel) (suc v) ≡ one_more (count_bytes fuel (bit_and (suc v) v))
unfolding count_bytes
count_bytes-suc fuel v = elim (count_bytes fuel (bit_and (suc v) v)) [ none ↦ refl | some n ↦ refl ]

-- On a word of any width `CountBytes` ends after exactly as many rounds as the word has ones in
-- binary, and returns their number.
pub count_bytes-ones : (w fuel v : ℕ) → v < 2 ^ w → count_bytes fuel v ≡ within fuel (ones w v)
unfolding count_bytes
count_bytes-ones w fuel zero h = sym (ap (within fuel) (ones-zero w) ∙ within-zero fuel)
count_bytes-ones w zero (suc v) h =
    let less = and_less w (suc v) (omega arith) h in ground (arith, less)
count_bytes-ones w (suc fuel) (suc v) h =
    let v' = bit_and (suc v) v in
    let pred : suc v - 1 ≡ v = omega arith in
    let small : v' < 2 ^ w = omega (arith, and_le (suc v) (suc v) v (omega arith)) in
    let less : suc (ones w v') ≡ ones w (suc v) = omega (
      arith,
      and_less w (suc v) (omega arith) h,
      ap (λ (x : ℕ). ones w (bit_and (suc v) x)) pred,
    ) in
    count_bytes-suc fuel v
    ∙ ap one_more (count_bytes-ones w fuel v' small)
    ∙ within-suc fuel (ones w v')
    ∙ ap (within (suc fuel)) less
