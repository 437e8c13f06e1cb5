-- ===== src/ByteArray/Codec.antt =====
-- The typed methods of sylar/bytearray.cc. `host` is the byte order of the machine that runs them,
-- `SYLAR_BYTE_ORDER`. A floating-point number is its bit pattern.
use Prim.Native.Nat.{bit_and, bit_or}
use server_demo.Common.{
  ℕ, zero, suc, ◌+◌, ◌*◌, ◌%◌, ◌^◌, ltb, if◌then◌else◌, Bool, true, false, none, some, List, [],
  ◌∷◌, length,
}
use server_demo.Common.Int.{ℤ, to_word, from_word}
use server_demo.ByteArray.State.{Endian, little, big, ok, fault, M, ◌>>=◌, ◌>>◌, return}
use server_demo.ByteArray.Buffer.{write, read}
use server_demo.ByteArray.Words.{
  memory_of, value_of, byteswap, encode_zigzag, decode_zigzag, tmp_bytes,
}

abbrev pub same_order : Endian → Endian → Bool
same_order little little = true
same_order big big = true
same_order little big = false
same_order big little = false

-- The common body of writeFint16, writeFuint16 and so on, for an integer of `w` bytes.
unfoldable pub write_fixed : Endian → ℕ → ℕ → M (Unit {0})
write_fixed host w value b =
    if same_order b.endian host
    then write (memory_of host w value) b
    else write (memory_of host w (byteswap w value)) b

-- The macro `XX` of readFint16, readFuint16 and so on. `m_endian` is tested after the read.
unfoldable pub order_value : Endian → ℕ → ℕ → M ℕ
order_value host w v b = if same_order b.endian host then ok v b else ok (byteswap w v) b

unfoldable pub read_fixed : Endian → ℕ → M ℕ
read_fixed host w = read w >>= λ bytes. order_value host w (value_of host bytes)

-- One byte has no order.
unfoldable pub write_fuint8 : ℕ → M (Unit {0})
write_fuint8 value = write (value ∷ [])

abbrev pub first : List ℕ → ℕ
first [] = 0
first (x ∷ xs) = x

unfoldable pub read_fuint8 : M ℕ
read_fuint8 = read 1 >>= λ bytes. return (first bytes)

unfoldable pub write_fint8 : ℤ → M (Unit {0})
write_fint8 value = write (to_word 8 value ∷ [])

unfoldable pub read_fint8 : M ℤ
read_fint8 = read 1 >>= λ bytes. return (from_word 8 (first bytes))

-- writeFint16, writeFint32, writeFint64 for `w` = 2, 4, 8, and the reads.
unfoldable pub write_fint : Endian → ℕ → ℤ → M (Unit {0})
write_fint host w value = write_fixed host w (to_word (8 * w) value)

unfoldable pub read_fint : Endian → ℕ → M ℤ
read_fint host w = read_fixed host w >>= λ v. return (from_word (8 * w) v)

-- writeFloat and writeDouble are writeFuint32 and writeFuint64 of the bit pattern, and so the reads.
unfoldable pub write_float : Endian → ℕ → M (Unit {0})
write_float host bits = write_fixed host 4 bits

unfoldable pub write_double : Endian → ℕ → M (Unit {0})
write_double host bits = write_fixed host 8 bits

unfoldable pub read_float : Endian → M ℕ
read_float host = read_fixed host 4

unfoldable pub read_double : Endian → M ℕ
read_double host = read_fixed host 8

-- writeUint32 with a `tmp` of 5 bytes, writeUint64 with one of 10.
unfoldable pub write_varint : ℕ → ℕ → M (Unit {0})
write_varint room value b = elim (tmp_bytes room value) [
  | none ↦ fault
  | some bytes ↦ write bytes b
]

unfoldable pub write_uint32 : ℕ → M (Unit {0})
write_uint32 = write_varint 5

unfoldable pub write_uint64 : ℕ → M (Unit {0})
write_uint64 = write_varint 10

unfoldable pub write_int32 : ℤ → M (Unit {0})
write_int32 value = write_uint32 (encode_zigzag 32 value)

unfoldable pub write_int64 : ℤ → M (Unit {0})
write_int64 value = write_uint64 (encode_zigzag 64 value)

-- The loop `for(int i = 0; i < bits; i += 7)` of readUint32 and readUint64, by the rounds left.
unfoldable pub read_varint : ℕ → ℕ → ℕ → ℕ → M ℕ
read_varint bits zero i result = return result
read_varint bits (suc rounds) i result = read_fuint8 >>= λ b. elim (ltb b 0x80) [
  | true ↦ return (bit_or result (b * 2 ^ i % 2 ^ bits))
  | false ↦ read_varint bits rounds (i + 7) (bit_or result (bit_and b 0x7f * 2 ^ i % 2 ^ bits))
]

-- `i` takes the values 0, 7, 14, 21, 28, and the values up to 63.
unfoldable pub read_uint32 : M ℕ
read_uint32 = read_varint 32 5 0 0

unfoldable pub read_uint64 : M ℕ
read_uint64 = read_varint 64 10 0 0

unfoldable pub read_int32 : M ℤ
read_int32 = read_uint32 >>= λ v. return (decode_zigzag 32 v)

unfoldable pub read_int64 : M ℤ
read_int64 = read_uint64 >>= λ v. return (decode_zigzag 64 v)

-- writeStringF16, F32, F64 for `w` = 2, 4, 8: the size, converted to the type of `w` bytes, and the data.
unfoldable pub write_string_fixed : Endian → ℕ → List ℕ → M (Unit {0})
write_string_fixed host w value = write_fixed host w (length value % 2 ^ (8 * w)) >> write value

unfoldable pub read_string_fixed : Endian → ℕ → M (List ℕ)
read_string_fixed host w = read_fixed host w >>= read

unfoldable pub write_string_vint : List ℕ → M (Unit {0})
write_string_vint value = write_uint64 (length value % 2 ^ 64) >> write value

unfoldable pub read_string_vint : M (List ℕ)
read_string_vint = read_uint64 >>= read

unfoldable pub write_string_without_length : List ℕ → M (Unit {0})
write_string_without_length value = write value
