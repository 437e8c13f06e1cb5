-- ===== src/ByteArray/WordLaws.antt =====
-- Bytes and zigzag codes undo each other.
use mathlib.Core.List.{reverse, reverse-cons}
use native.Mathlib.Nat.{pow-suc, mod-lt, mod-eq_of_lt}
use Prim.Native.Nat.{bit_and}
use server_demo.Common.{
  ℕ, zero, suc, ◌+◌, ◌-◌, ◌*◌, ◌/◌, ◌%◌, ◌^◌, ◌<◌, ◌≡◌, refl, sym, ap, ◌∙◌, List, [], ◌∷◌, ◌++◌,
  All, arith, length, length-append,
}
use server_demo.Common.Bits.{pow_pos, and_one, xor-zero, xor_ones}
use server_demo.Common.Int.{ℤ, pos, negsuc, IsInt, to_word, from_word}
use server_demo.ByteArray.State.{Endian, little, big}
use server_demo.ByteArray.Words.{to_le, from_le, byteswap, encode_zigzag, decode_zigzag}

abbrev pub IsByte : ℕ → Type 0
IsByte x = x < 256

pub length-to_le : (w v : ℕ) → length (to_le w v) ≡ w
unfolding to_le
length-to_le zero v = refl
length-to_le (suc w) v = ap suc (length-to_le w (v / 256))

pub to_le-IsByte : (w v : ℕ) → All IsByte (to_le w v)
unfolding to_le
to_le-IsByte zero v = tt
to_le-IsByte (suc w) v = (omega arith, to_le-IsByte w (v / 256))

pub from_le-to_le : (w v : ℕ) → v < 256 ^ w → from_le (to_le w v) ≡ v
unfolding to_le from_le
from_le-to_le zero v h = omega arith
from_le-to_le (suc w) v h = omega (arith, from_le-to_le w (v / 256) (omega (arith, pow-suc 256 w)))

pub to_le-from_le : (xs : List ℕ) → All IsByte xs → to_le (length xs) (from_le xs) ≡ xs
unfolding to_le from_le
to_le-from_le [] h = refl
to_le-from_le (x ∷ xs) h =
    let low : (x + 256 * from_le xs) % 256 ≡ x = omega (arith, h.0) in
    let high : (x + 256 * from_le xs) / 256 ≡ from_le xs = omega (arith, h.0) in
    rw (low, high, to_le-from_le xs h.1)

pub length-reverse : (xs : List ℕ) → length (reverse xs) ≡ length xs
length-reverse [] = refl
length-reverse (x ∷ xs) =
    omega
      (arith, ap length (reverse-cons x xs), length-append (reverse xs) (x ∷ []), length-reverse xs)

All-snoc : (xs : List ℕ) (x : ℕ) → All IsByte xs → IsByte x → All IsByte (xs ++ (x ∷ []))
All-snoc [] x h k = (k, tt)
All-snoc (y ∷ xs) x h k = (h.0, All-snoc xs x h.1 k)

reverse-IsByte : (xs : List ℕ) → All IsByte xs → All IsByte (reverse xs)
reverse-IsByte [] h = tt
reverse-IsByte (x ∷ xs) h =
    rw (reverse-cons x xs) (All-snoc (reverse xs) x (reverse-IsByte xs h.1) h.0)

-- `byteswap` turns the bytes round.
pub to_le-byteswap : (w v : ℕ) → to_le w (byteswap w v) ≡ reverse (to_le w v)
unfolding byteswap
to_le-byteswap w v =
    ap (λ (n : ℕ). to_le n (from_le (reverse (to_le w v))))
      (sym (length-reverse (to_le w v) ∙ length-to_le w v))
    ∙ to_le-from_le (reverse (to_le w v)) (reverse-IsByte (to_le w v) (to_le-IsByte w v))

-- The bytes on the wire: they depend on the buffer's order alone.
abbrev pub wire : Endian → ℕ → ℕ → List ℕ
wire little w v = to_le w v
wire big w v = reverse (to_le w v)

pub length-wire : (e : Endian) (w v : ℕ) → length (wire e w v) ≡ w
length-wire little w v = length-to_le w v
length-wire big w v = length-reverse (to_le w v) ∙ length-to_le w v

-- The halves of the unsigned range.
pred_exp : (w : ℕ) → 2 ^ (suc w - 1) ≡ 2 ^ w
pred_exp w = ap (λ (k : ℕ). 2 ^ k) (omega arith)

small : (w n : ℕ) → n < 2 ^ suc w → n % 2 ^ suc w ≡ n
small w n h = mod-eq_of_lt h

-- A signed integer and the word that stands for it.
pub to_word-lt : (w : ℕ) (z : ℤ) → to_word w z < 2 ^ w
to_word-lt w (pos n) = mod-lt n (pow_pos w)
to_word-lt w (negsuc n) = omega (arith, pow_pos w)

pub from_word-to_word : (w : ℕ) (z : ℤ) → IsInt w z → from_word (suc w) (to_word (suc w) z) ≡ z
from_word-to_word w (pos n) h =
    rw (small w n (omega (arith, pow-suc 2 w)), pred_exp w) (ground (arith, h))
from_word-to_word w (negsuc n) h =
    rw (small w n (omega (arith, pow-suc 2 w)), pred_exp w) (ground (arith, h, pow-suc 2 w))

encode_pos : (w n : ℕ) → n < 2 ^ w → encode_zigzag (suc w) (pos n) ≡ n * 2
unfolding encode_zigzag
encode_pos w n h = small w (n * 2) (omega (arith, pow-suc 2 w))

encode_negsuc : (w n : ℕ) → n < 2 ^ w → encode_zigzag (suc w) (negsuc n) ≡ n * 2 + 1
unfolding encode_zigzag
encode_negsuc w n h =
    rw (small w (n + 1) (omega (arith, pow-suc 2 w)))
      (wrap (2 ^ suc w) (n * 2 + 1) _ (omega (arith, pow-suc 2 w)) (omega (arith, pow-suc 2 w)))
  where
    wrap : (p r v : ℕ) → r < p → v ≡ r + p → v % p ≡ r
    wrap p r v lt e = rw e (grind arith)

pub encode_zigzag-lt : (w : ℕ) (z : ℤ) → IsInt w z → encode_zigzag (suc w) z < 2 ^ suc w
encode_zigzag-lt w (pos n) h = omega (arith, encode_pos w n h, pow-suc 2 w)
encode_zigzag-lt w (negsuc n) h = omega (arith, encode_negsuc w n h, pow-suc 2 w)

mask_even : (p n : ℕ) → 0 < p → (p - bit_and (n * 2) 1) % p ≡ 0
mask_even p n h =
    let e : p - bit_and (n * 2) 1 ≡ p = omega (arith, and_one (n * 2)) in rw e (grind arith)

mask_odd : (p n : ℕ) → 0 < p → (p - bit_and (n * 2 + 1) 1) % p ≡ p - 1
mask_odd p n h =
    let e : p - bit_and (n * 2 + 1) 1 ≡ p - 1 = omega (arith, and_one (n * 2 + 1)) in
    rw e (mod-eq_of_lt (omega arith))

-- The zigzag code is undone on every signed integer of the width.
pub decode_zigzag-encode_zigzag :
    (w : ℕ) (z : ℤ) → IsInt w z → decode_zigzag (suc w) (encode_zigzag (suc w) z) ≡ z
unfolding decode_zigzag
decode_zigzag-encode_zigzag w (pos n) h =
    let half : n * 2 / 2 ≡ n = omega arith in
    rw (encode_pos w n h, mask_even (2 ^ suc w) n (pow_pos (suc w)), half, xor-zero n, pred_exp w)
      (ground (arith, h))
decode_zigzag-encode_zigzag w (negsuc n) h =
    let half : (n * 2 + 1) / 2 ≡ n = omega arith in
    rw
      (
        encode_negsuc w n h,
        mask_odd (2 ^ suc w) n (pow_pos (suc w)),
        half,
        xor_ones (suc w) n (omega (arith, pow-suc 2 w)),
        pred_exp w,
      )
      (ground (arith, h, pow-suc 2 w))
