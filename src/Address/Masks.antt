-- ===== src/Address/Masks.antt =====
-- What the addresses of a prefix are, by division.
use Prim.Native.Nat.{bit_and, bit_or, bit_or-bitwise}
use server_demo.Common.{
  ℕ, zero, suc, ◌+◌, ◌-◌, ◌*◌, ◌/◌, ◌%◌, ◌^◌, ◌≤◌, ◌<◌, ◌≡◌, refl, sym, ap, ◌∙◌, Option, some,
  arith, ltb, if◌then◌else◌, false,
}
use native.Mathlib.Nat.{pow-suc, div-div-eq-div-mul, mod-eq-sub-div-mul}
use server_demo.Common.Bits.{pow_pos, and_step, and_zero, or_step}
use server_demo.Address.Prefix.{
  create_mask, Result, address, null, with_mask, broadcast_address, network_address, subnet_mask,
}

-- A mask of one bit more, and the part of a word above it.
mask_half : (k : ℕ) → (2 ^ suc k - 1) / 2 ≡ 2 ^ k - 1
mask_half k = halve (2 ^ suc k) (2 ^ k) (pow-suc 2 k)
  where
    halve : (p q : ℕ) → p ≡ q * 2 → (p - 1) / 2 ≡ q - 1
    halve p q e = omega arith

mask_odd : (k : ℕ) → (2 ^ suc k - 1) % 2 ≡ 1
mask_odd k = odd (2 ^ suc k) (2 ^ k) (pow-suc 2 k) (pow_pos k)
  where
    odd : (p q : ℕ) → p ≡ q * 2 → 0 < q → (p - 1) % 2 ≡ 1
    odd p q e h = omega arith

above : (k a : ℕ) → a / 2 ^ suc k * 2 ^ suc k ≡ a / 2 / 2 ^ k * 2 ^ k * 2
above k a =
    let q = a / 2 / 2 ^ k in
    let same : a / 2 ^ suc k ≡ q =
      sym (div-div-eq-div-mul a 2 (2 ^ k) ∙ ap (λ (t : ℕ). a / t) (omega (arith, pow-suc 2 k))) in
    ap (λ (t : ℕ). t * 2 ^ suc k) same ∙ omega (arith, ap (λ (t : ℕ). q * t) (pow-suc 2 k))

or_zero : (n a : ℕ) → a ≤ n → bit_or a 0 ≡ a
or_zero n zero h = simp bit_or-bitwise
or_zero zero (suc a) h = absurd (omega arith)
or_zero (suc n) (suc a) h = omega (arith, or_step (suc a) 0, or_zero n (suc a / 2) (omega arith))

and_mask : (k a : ℕ) → bit_and a (2 ^ k - 1) + a / 2 ^ k * 2 ^ k ≡ a
and_mask zero a = rw (and_zero a a (omega arith)) (omega arith)
and_mask (suc k) a = omega (
  arith,
  and_step a (2 ^ suc k - 1),
  ap (bit_and (a / 2)) (mask_half k),
  mask_odd k,
  and_mask k (a / 2),
  above k a,
)

or_mask : (k a : ℕ) → bit_or a (2 ^ k - 1) ≡ a / 2 ^ k * 2 ^ k + (2 ^ k - 1)
or_mask zero a = rw (or_zero a a (omega arith)) (omega arith)
or_mask (suc k) a = omega (
  arith,
  or_step a (2 ^ suc k - 1),
  ap (bit_or (a / 2)) (mask_half k),
  mask_odd k,
  or_mask k (a / 2),
  above k a,
  pow-suc 2 k,
)

-- The mask of a prefix that the shift is defined for.
create_mask-defined : (p : ℕ) → 2 ≤ p → p ≤ 32 → create_mask p ≡ some (2 ^ (32 - p) - 1)
unfolding create_mask
create_mask-defined p lo hi =
    let a : ltb p 2 ≡ false = ground arith in
    let b : ltb 32 p ≡ false = ground arith in rw (a, b) refl

guarded : (p : ℕ) (r : Result) → p ≤ 32 → (if ltb 32 p then null else r) ≡ r
guarded p r hi = let b : ltb 32 p ≡ false = ground arith in rw b refl

-- For a prefix of 2 to 32 bits of an IPv4 address, the broadcast address is the address with all
-- ones below the prefix, the network address is what stands below the prefix alone, and the
-- subnet mask has all ones in the prefix and zeros below it.
pub prefix_addresses :
    (a p : ℕ)
    → 2 ≤ p
    → p ≤ 32
    → let block = 2 ^ (32 - p) in
      (broadcast_address a p ≡ address (a / block * block + (block - 1)))
      × (network_address a p ≡ address (a % block))
      × (subnet_mask p ≡ address (2 ^ 32 - block))
unfolding broadcast_address network_address subnet_mask with_mask
prefix_addresses a p lo hi =
    let k = 32 - p in
    let m = create_mask-defined p lo hi in
    (
      guarded p _ hi ∙ ap (λ (o : Option ℕ). with_mask o (bit_or a)) m ∙ ap address (or_mask k a),
      guarded p _ hi
          ∙ ap (λ (o : Option ℕ). with_mask o (bit_and a)) m
          ∙ ap address (omega (arith, and_mask k a, mod-eq-sub-div-mul a (2 ^ k))),
      ap (λ (o : Option ℕ). with_mask o (λ mask. 2 ^ 32 - 1 - mask)) m
          ∙ ap address (omega (arith, pow_pos k)),
    )
