-- ===== src/Address/Prefix.antt =====
-- The calls of IPv4Address that take the length of a prefix. A word of four bytes in network order is
-- given by its number, so the swap of the bytes is gone from both sides of an operation.
use Prim.Native.Nat.{bit_and, bit_or}
use server_demo.Common.{ℕ, zero, suc, ◌-◌, ◌^◌, Option, none, some, ltb, if◌then◌else◌}

-- CreateMask<uint32_t>: its shift is one of an int, so it is undefined below 2 bits, and above 32.
unfoldable pub create_mask : ℕ → Option ℕ
create_mask bits =
    if ltb bits 2 then none else if ltb 32 bits then none else some (2 ^ (32 - bits) - 1)

-- What such a call does: it returns an address, or a null pointer, or is undefined.
pub data Result : Type 0 where
  address : ℕ → Result
  null undefined : Result

unfoldable pub with_mask : Option ℕ → (ℕ → ℕ) → Result
with_mask none f = undefined
with_mask (some mask) f = address (f mask)

unfoldable pub broadcast_address : ℕ → ℕ → Result
broadcast_address a prefix_len =
    if ltb 32 prefix_len then null else with_mask (create_mask prefix_len) (bit_or a)

unfoldable pub network_address : ℕ → ℕ → Result
network_address a prefix_len =
    if ltb 32 prefix_len then null else with_mask (create_mask prefix_len) (bit_and a)

unfoldable pub subnet_mask : ℕ → Result
subnet_mask prefix_len = with_mask (create_mask prefix_len) (λ mask. 2 ^ 32 - 1 - mask)

-- CountBytes. Fuel counts the rounds.
unfoldable pub count_bytes : ℕ → ℕ → Option ℕ
count_bytes fuel zero = some 0
count_bytes zero (suc v) = none
count_bytes (suc fuel) (suc v) = elim (count_bytes fuel (bit_and (suc v) v)) [
  | none ↦ none
  | some n ↦ some (suc n)
]
