-- ===== src/ByteArray/Words.antt =====
-- sylar/endian.h and the integer conversions of sylar/bytearray.cc: the bytes of an integer in
-- memory, `byteswap`, and the zigzag code.
use Prim.Native.Nat.{bit_and, bit_or, bit_xor}
use mathlib.Core.List.{reverse}
use server_demo.Common.{
  ℕ, zero, suc, ◌+◌, ◌-◌, ◌*◌, ◌/◌, ◌%◌, ◌^◌, leb, if◌then◌else◌, Option, none, some, List, [], ◌∷◌,
}
use server_demo.Common.Int.{ℤ, pos, negsuc, from_word}
use server_demo.ByteArray.State.{Endian, little, big}

-- The lowest `w` bytes of an integer, the lowest first, and the integer of such bytes.
unfoldable pub to_le : ℕ → ℕ → List ℕ
to_le zero v = []
to_le (suc w) v = (v % 256) ∷ to_le w (v / 256)

unfoldable pub from_le : List ℕ → ℕ
from_le [] = 0
from_le (x ∷ xs) = x + 256 * from_le xs

-- The bytes of a `w`-byte integer in the memory of a machine of the given byte order.
unfoldable pub memory_of : Endian → ℕ → ℕ → List ℕ
memory_of little w v = to_le w v
memory_of big w v = reverse (to_le w v)

unfoldable pub value_of : Endian → List ℕ → ℕ
value_of little xs = from_le xs
value_of big xs = from_le (reverse xs)

-- byteswap of sylar/endian.h on `w` bytes.
unfoldable pub byteswap : ℕ → ℕ → ℕ
byteswap w v = from_le (reverse (to_le w v))

-- EncodeZigzag32 and EncodeZigzag64, on two's complement hardware. `-v` of the least value and
-- `v * 2` from a quarter of the range on wrap, which the C++ standard leaves undefined for signed types.
unfoldable pub encode_zigzag : ℕ → ℤ → ℕ
encode_zigzag bits (negsuc n) = ((n + 1) % 2 ^ bits * 2 + 2 ^ bits - 1) % 2 ^ bits
encode_zigzag bits (pos n) = n * 2 % 2 ^ bits

-- DecodeZigzag32 and DecodeZigzag64: (v >> 1) ^ -(v & 1), converted to the signed type.
unfoldable pub decode_zigzag : ℕ → ℕ → ℤ
decode_zigzag bits v = from_word bits (bit_xor (v / 2) ((2 ^ bits - bit_and v 1) % 2 ^ bits))

-- The loop of `writeUint32` and `writeUint64`, with the room that is left in `tmp`; `none` is a
-- store behind the end of `tmp`.
unfoldable pub tmp_bytes : ℕ → ℕ → Option (List ℕ)
tmp_bytes zero value = none
tmp_bytes (suc room) value =
    let further = tmp_bytes room (value / 128) in
    if leb 0x80 value
    then elim further [ none ↦ none | some bytes ↦ some (bit_or (bit_and value 0x7f) 0x80 ∷ bytes) ]
    else some (value ∷ [])
