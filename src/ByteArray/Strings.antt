-- ===== src/ByteArray/Strings.antt =====
-- The zigzag integers and the strings behind a length.
use native.Mathlib.Nat.{mod-eq_of_lt}
use server_demo.Common.{ℕ, ◌*◌, ◌^◌, ◌<◌, ◌≡◌, ◌∙◌, subst, List, ◌++◌, append_assoc, arith, length}
use server_demo.Common.Int.{ℤ, IsInt}
use server_demo.ByteArray.State.{ByteArray, Endian, ok, M, ◌>>=◌, ◌>>◌}
use server_demo.ByteArray.Buffer.{write, read}
use server_demo.ByteArray.Valid.{IsValid, unread, Room}
use server_demo.ByteArray.Stream.{read-Took_nonempty, write-Appended}
use server_demo.ByteArray.Words.{encode_zigzag, decode_zigzag}
use server_demo.ByteArray.WordLaws.{encode_zigzag-lt, decode_zigzag-encode_zigzag, wire}
use server_demo.ByteArray.Codec.{
  write_fixed, read_fixed, write_varint, read_varint, write_uint32, read_uint32, write_uint64,
  read_uint64, write_int32, read_int32, write_int64, read_int64, write_string_fixed,
  read_string_fixed, write_string_vint, read_string_vint,
}
use server_demo.ByteArray.RoundTrip.{
  RoundTrip, Puts, Takes, round_trip, Takes-bind, Puts-seq, RoundTrip-map,
}
use server_demo.ByteArray.Fixed.{bytes_pow, write_fixed-Puts, read_fixed-Takes}
use server_demo.ByteArray.Integers.{
  VarintRoom, varint_bytes, write_varint-Puts, read_uint32-write_uint32, read_uint64-write_uint64,
}

-- Every int32 that `writeInt32` writes is read back by `readInt32`.
pub read_int32-write_int32 :
    (z : ℤ) (b : ByteArray)
    → IsValid b
    → VarintRoom b 5 (encode_zigzag 32 z)
    → IsInt 31 z
    → RoundTrip (write_int32 z) read_int32 z b
unfolding write_int32 read_int32
read_int32-write_int32 z b v room h =
    subst (λ y. RoundTrip (write_int32 z) read_int32 y b) (decode_zigzag-encode_zigzag 31 z h)
      (RoundTrip-map (write_uint32 (encode_zigzag 32 z)) read_uint32 (decode_zigzag 32) _ b
        (read_uint32-write_uint32 (encode_zigzag 32 z) b v room (encode_zigzag-lt 31 z h)))

-- An int64 from -2^62 up to 2^62 - 1 that `writeInt64` writes into a well-formed buffer, where
-- `addCapacity` leaves room for its code, is read back as it was by `readInt64` once the position
-- is set back, and the read ends where the write did.
pub read_int64-write_int64 :
    (z : ℤ) (b : ByteArray)
    → IsValid b
    → VarintRoom b 10 (encode_zigzag 64 z)
    → IsInt 63 z
    → RoundTrip (write_int64 z) read_int64 z b
unfolding write_int64 read_int64
read_int64-write_int64 z b v room h =
    subst (λ y. RoundTrip (write_int64 z) read_int64 y b) (decode_zigzag-encode_zigzag 63 z h)
      (RoundTrip-map (write_uint64 (encode_zigzag 64 z)) read_uint64 (decode_zigzag 64) _ b
        (read_uint64-write_uint64 (encode_zigzag 64 z) b v room (encode_zigzag-lt 63 z h)))

-- A length and the data behind it, for a length that fits its type and data that is not empty.
module _ (lead : M (Unit {0})) (lead_read : M ℕ) (s header : List ℕ) where
  string_Puts :
      (b : ByteArray)
      → Puts lead header b
      → ((c : ByteArray) → lead b ≡ ok tt c → Room c (length s))
      → Puts (lead >> write s) (header ++ s) b
  string_Puts b (c, run, a) room =
      Puts-seq lead (write s) header s b (c, run, a, write-Appended s c a.valid (room c run))

  string_Takes :
      (rest : List ℕ) (d : ByteArray)
      → 0 < length s
      → Takes lead_read (length s) header (s ++ rest) d
      → Takes (lead_read >>= read) s (header ++ s) rest d
  string_Takes rest d h t =
      Takes-bind lead_read read (length s) s header s rest d t
        (λ c t'. read-Took_nonempty s rest c t'.moved.valid t'.rest_eq h)

  string-RoundTrip :
      (b : ByteArray)
      → IsValid b
      → 0 < length s
      → Puts lead header b
      → ((c : ByteArray) → lead b ≡ ok tt c → Room c (length s))
      → ((d : ByteArray) (rest : List ℕ)
          → IsValid d
          → d.endian ≡ b.endian
          → unread d ≡ header ++ rest
          → Takes lead_read (length s) header rest d)
      → RoundTrip (lead >> write s) (lead_read >>= read) s b
  string-RoundTrip b v h puts room takes =
      round_trip (lead >> write s) (lead_read >>= read) s (header ++ s) b v
        (string_Puts b puts room)
        (λ d rest v' e u.
          string_Takes rest d h (takes d (s ++ rest) v' e (u ∙ append_assoc header s rest)))

-- A string that is not empty and whose size fits in `w` bytes, `w` at least 1, written behind its
-- fixed-size length into a well-formed buffer where `addCapacity` leaves room first for the
-- length and then for the string, is read back as it was once the position is set back, and the
-- read ends where the write did.
pub read_string_fixed-write_string_fixed :
    (writer reader : Endian) (w : ℕ) (s : List ℕ) (b : ByteArray)
    → IsValid b
    → 0 < w
    → 0 < length s
    → length s < 2 ^ (8 * w)
    → Room b w
    → ((c : ByteArray) → write_fixed writer w (length s) b ≡ ok tt c → Room c (length s))
    → RoundTrip (write_string_fixed writer w s) (read_string_fixed reader w) s b
unfolding write_string_fixed read_string_fixed
read_string_fixed-write_string_fixed writer reader w s b v pos nonempty fits room next =
    rw (mod-eq_of_lt fits) (
      string-RoundTrip (write_fixed writer w (length s)) (read_fixed reader w) s
        (wire b.endian w (length s)) b v nonempty (write_fixed-Puts writer w (length s) b v room)
        next
        (λ d rest v' e u.
          rw (← e) (
            read_fixed-Takes reader w (length s) rest d v' pos (rw (← bytes_pow w) fits) (rw e u))))

-- A string that is not empty and shorter than 2^64, written behind its variable-size length into
-- a well-formed buffer where `addCapacity` leaves room first for the length and then for the
-- string, is read back as it was once the position is set back, and the read ends where the write
-- did.
pub read_string_vint-write_string_vint :
    (s : List ℕ) (b : ByteArray)
    → IsValid b
    → 0 < length s
    → length s < 2 ^ 64
    → VarintRoom b 10 (length s)
    → ((c : ByteArray) → write_uint64 (length s) b ≡ ok tt c → Room c (length s))
    → RoundTrip (write_string_vint s) read_string_vint s b
unfolding write_string_vint read_string_vint write_uint64 read_uint64
read_string_vint-write_string_vint s b v nonempty fits room next =
    let (bytes, e, takes) = varint_bytes 64 9 (length s) (omega (arith, fits)) fits in
    rw (mod-eq_of_lt fits) (
      string-RoundTrip (write_varint 10 (length s)) (read_varint 64 10 0 0) s bytes b v nonempty
        (write_varint-Puts 9 (length s) b v room bytes e) next (λ d rest v' _ u. takes rest d v' u))
