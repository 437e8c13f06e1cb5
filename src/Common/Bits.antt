-- ===== src/Common/Bits.antt =====
-- Laws of the bit operations that the integer formats use, from their digit recursion.
use Prim.Native.Nat.{
  ℕ, zero, suc, ◌+◌, ◌-◌, ◌*◌, ◌/◌, ◌%◌, ◌^◌, ◌≤◌, ◌<◌, min, max, bit_and, bit_or, bit_xor, digits,
  bitwise, bit_and-bitwise, bit_or-bitwise, bit_xor-bitwise, differ,
}
use mathlib.Core.Path.{◌≡◌, refl, ap}
use native.Mathlib.Omega.{arith}
use native.Mathlib.Nat.{pow-suc}

pub pow_pos : (w : ℕ) → 0 < 2 ^ w
pow_pos zero = omega arith
pow_pos (suc w) = omega (arith, pow_pos w, pow-suc 2 w)

-- The fuel of the digit recursion does not matter once it covers the first argument.
digits_enough :
    (rest : ℕ → ℕ) (op : ℕ → ℕ → ℕ) (m n a b : ℕ)
    → a ≤ m
    → a ≤ n
    → digits rest op m a b ≡ digits rest op n a b
digits_enough rest op zero zero zero b h k = refl
digits_enough rest op zero (suc n) zero b h k = refl
digits_enough rest op (suc m) zero zero b h k = refl
digits_enough rest op (suc m) (suc n) zero b h k = refl
digits_enough rest op zero n (suc a) b h k = absurd (omega arith)
digits_enough rest op (suc m) zero (suc a) b h k = absurd (omega arith)
digits_enough rest op (suc m) (suc n) (suc a) b h k =
    ap (λ q. q * 2 + op (suc a % 2) (b % 2))
      (digits_enough rest op m n (suc a / 2) (b / 2) (omega arith) (omega arith))

lowest_digit :
    (rest : ℕ → ℕ) (op : ℕ → ℕ → ℕ) (a b : ℕ)
    → bitwise rest op (suc a) b ≡ bitwise rest op (suc a / 2) (b / 2) * 2 + op (suc a % 2) (b % 2)
lowest_digit rest op a b =
    ap (λ q. q * 2 + op (suc a % 2) (b % 2))
      (digits_enough rest op a (suc a / 2) (suc a / 2) (b / 2) (omega arith) (omega arith))

pub and_step : (a b : ℕ) → bit_and a b ≡ bit_and (a / 2) (b / 2) * 2 + min (a % 2) (b % 2)
and_step zero b = simp bit_and-bitwise (omega arith)
and_step (suc a) b = simp bit_and-bitwise (lowest_digit (λ b. 0) min a b)

pub or_step : (a b : ℕ) → bit_or a b ≡ bit_or (a / 2) (b / 2) * 2 + max (a % 2) (b % 2)
or_step zero b = simp bit_or-bitwise (omega arith)
or_step (suc a) b = simp bit_or-bitwise (lowest_digit (λ b. b) max a b)

pub and_zero : (n a : ℕ) → a ≤ n → bit_and a 0 ≡ 0
and_zero n zero h = refl
and_zero zero (suc a) h = absurd (omega arith)
and_zero (suc n) (suc a) h = omega (arith, and_step (suc a) 0, and_zero n (suc a / 2) (omega arith))

-- v & 1 and v & 0x7f.
pub and_one : (a : ℕ) → bit_and a 1 ≡ a % 2
and_one a = omega (arith, and_step a 1, and_zero (a / 2) (a / 2) (omega arith))

and_seven : (a : ℕ) → bit_and a 7 ≡ a % 8
and_seven a = omega (arith, and_step a 7, and_step (a / 2) 3, and_one (a / 2 / 2))

pub and_127 : (a : ℕ) → bit_and a 0x7f ≡ a % 128
and_127 a = omega (
  arith,
  and_step a 127,
  and_step (a / 2) 63,
  and_step (a / 2 / 2) 31,
  and_step (a / 2 / 2 / 2) 15,
  and_seven (a / 2 / 2 / 2 / 2),
)

zero_or : (b : ℕ) → bit_or 0 b ≡ b
zero_or b = simp bit_or-bitwise

-- An `|` of bits below place k with bits from place k on is a sum.
pub or_add : (k lo hi : ℕ) → lo < 2 ^ k → bit_or lo (hi * 2 ^ k) ≡ lo + hi * 2 ^ k
or_add zero lo hi h =
    let e : lo ≡ 0 = omega arith in
    let o : hi * 2 ^ 0 ≡ hi = omega arith in rw (e, o, zero_or hi) (omega arith)
or_add (suc k) lo hi h =
    let double : hi * 2 ^ suc k ≡ 2 * (hi * 2 ^ k) =
      omega (arith, ap (λ (t : ℕ). hi * t) (pow-suc 2 k)) in
    omega (
      arith,
      double,
      pow-suc 2 k,
      or_step lo (hi * 2 ^ suc k),
      ap (bit_or (lo / 2)) (half (hi * 2 ^ suc k) (hi * 2 ^ k) double),
      or_add k (lo / 2) hi (omega (arith, pow-suc 2 k)),
    )
  where
    half : (a b : ℕ) → a ≡ 2 * b → a / 2 ≡ b
    half a b e = omega arith

-- An exclusive or with zero, and with all ones.
xor_step : (a b : ℕ) → bit_xor a b ≡ bit_xor (a / 2) (b / 2) * 2 + differ (a % 2) (b % 2)
xor_step zero b = simp bit_xor-bitwise (omega arith)
xor_step (suc a) b = simp bit_xor-bitwise (lowest_digit (λ b. b) differ a b)

differ-zero : (x : ℕ) → differ x 0 ≡ x
differ-zero zero = refl
differ-zero (suc x) = refl

differ-one : (x : ℕ) → x < 2 → differ x 1 ≡ 1 - x
differ-one zero h = refl
differ-one (suc zero) h = refl
differ-one (suc (suc x)) h = absurd (omega arith)

xor-zero_below : (n a : ℕ) → a ≤ n → bit_xor a 0 ≡ a
xor-zero_below n zero h = refl
xor-zero_below zero (suc a) h = absurd (omega arith)
xor-zero_below (suc n) (suc a) h =
    omega (
      arith,
      xor_step (suc a) 0,
      xor-zero_below n (suc a / 2) (omega arith),
      differ-zero (suc a % 2),
    )

pub xor-zero : (a : ℕ) → bit_xor a 0 ≡ a
xor-zero a = xor-zero_below a a (omega arith)

pub xor_ones : (w a : ℕ) → a < 2 ^ w → bit_xor a (2 ^ w - 1) ≡ 2 ^ w - 1 - a
xor_ones zero a h = let e : a ≡ 0 = omega arith in rw e
xor_ones (suc w) a h =
    let ones : (2 ^ suc w - 1) / 2 ≡ 2 ^ w - 1 = halve (2 ^ suc w) (2 ^ w) (pow-suc 2 w) in
    omega (
      arith,
      pow-suc 2 w,
      xor_step a (2 ^ suc w - 1),
      ap (bit_xor (a / 2)) ones,
      xor_ones w (a / 2) (omega (arith, pow-suc 2 w)),
      ap (differ (a % 2)) (odd (2 ^ suc w) (2 ^ w) (pow-suc 2 w) (omega (arith, pow-suc 2 w, h))),
      differ-one (a % 2) (omega arith),
    )
  where
    halve : (p q : ℕ) → p ≡ q * 2 → (p - 1) / 2 ≡ q - 1
    halve p q e = omega arith

    odd : (p q : ℕ) → p ≡ q * 2 → 0 < p → (p - 1) % 2 ≡ 1
    odd p q e h = omega arith
