-- ===== src/Common/Int.antt =====
-- Signed integers, and the machine words that stand for them.
use Prim.Native.Nat.{ℕ, ◌-◌, ◌%◌, ◌^◌, ◌<◌}
use server_demo.Common.Tests.{ltb, if◌then◌else◌}

-- `negsuc n` is -(n + 1).
pub data ℤ : Type 0 where
  pos : ℕ → ℤ
  negsuc : ℕ → ℤ

-- The values of a signed integer of w + 1 bits.
abbrev pub IsInt : ℕ → ℤ → Type 0
IsInt w (pos n) = n < 2 ^ w
IsInt w (negsuc n) = n < 2 ^ w

-- Conversion to the unsigned type of w bits, and back to the signed one.
abbrev pub to_word : ℕ → ℤ → ℕ
to_word w (pos n) = n % 2 ^ w
to_word w (negsuc n) = 2 ^ w - 1 - n % 2 ^ w

abbrev pub from_word : ℕ → ℕ → ℤ
from_word w v = if ltb v (2 ^ (w - 1)) then pos v else negsuc (2 ^ w - 1 - v)

-- (int) of a uint64_t or a size_t.
abbrev pub to_int : ℕ → ℤ
to_int v = from_word 32 (v % 2 ^ 32)
