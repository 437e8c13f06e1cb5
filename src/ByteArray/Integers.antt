-- ===== src/ByteArray/Integers.antt =====
-- The variable-length integers, written and read back.
use server_demo.Common.{ℕ, suc, ◌+◌, ◌*◌, ◌^◌, ◌<◌, ◌≡◌, ap, ◌∙◌, some, List, ◌++◌, arith, length}
use server_demo.ByteArray.State.{ByteArray, ok}
use server_demo.ByteArray.Valid.{IsValid, unread, Room}
use server_demo.ByteArray.Stream.{write-Appended}
use server_demo.ByteArray.Words.{tmp_bytes}
use server_demo.ByteArray.Codec.{
  read_varint, write_varint, write_uint32, read_uint32, write_uint64, read_uint64,
}
use server_demo.ByteArray.RoundTrip.{RoundTrip, Puts, Takes, round_trip}
use server_demo.ByteArray.Varint.{tmp_bytes-Coded}

-- After `addCapacity` there is room for what `write_varint` will write.
abbrev pub VarintRoom : ByteArray → ℕ → ℕ → Type 0
VarintRoom b room v = (bytes : List ℕ) → tmp_bytes room v ≡ some bytes → Room b (length bytes)

pub write_varint-Puts :
    (k v : ℕ) (b : ByteArray)
    → IsValid b
    → VarintRoom b (suc k) v
    → (bytes : List ℕ) → tmp_bytes (suc k) v ≡ some bytes
    → Puts (write_varint (suc k) v) bytes b
unfolding write_varint
write_varint-Puts k v b valid room bytes e =
    let (c, run, a) = write-Appended bytes b valid (room bytes e) in
    (c, rw (e, write_varint) run, a)

-- The bytes of a value that fits, and that the read takes exactly them.
pub varint_bytes :
    (bits k v : ℕ)
    → v < 128 ^ suc k
    → v < 2 ^ bits
    → (bytes : List ℕ) × (tmp_bytes (suc k) v ≡ some bytes)
      × ((rest : List ℕ) (d : ByteArray)
          → IsValid d
          → unread d ≡ bytes ++ rest
          → Takes (read_varint bits (suc k) 0 0) v bytes rest d)
varint_bytes bits k v short fits =
    let (bytes, (e, lo, hi, takes)) = tmp_bytes-Coded k v short in
    (
      bytes,
      e,
      λ rest d valid u. whole d (takes bits 0 0 rest d valid (omega arith) (omega (arith, fits)) u),
    )
  where
    whole :
        {bytes rest : List ℕ} (d : ByteArray)
        → Takes (read_varint bits (suc k) 0 0) (0 + v * 2 ^ 0) bytes rest d
        → Takes (read_varint bits (suc k) 0 0) v bytes rest d
    whole d (c, run, t) =
        let e : 0 + v * 2 ^ 0 ≡ v = omega arith in (c, run ∙ ap (λ n. ok n c) e, t)

pub read_varint-write_varint :
    (bits k v : ℕ) (b : ByteArray)
    → IsValid b
    → VarintRoom b (suc k) v
    → v < 128 ^ suc k
    → v < 2 ^ bits
    → RoundTrip (write_varint (suc k) v) (read_varint bits (suc k) 0 0) v b
read_varint-write_varint bits k v b valid room short fits =
    let (bytes, e, takes) = varint_bytes bits k v short fits in
    round_trip (write_varint (suc k) v) (read_varint bits (suc k) 0 0) v bytes b valid
      (write_varint-Puts k v b valid room bytes e) (λ d rest valid' _ u. takes rest d valid' u)

-- A uint32 that `writeUint32` writes into a well-formed buffer, where `addCapacity` leaves room
-- for its code, is read back as it was by `readUint32` once the position is set back, and the
-- read ends where the write did.
pub read_uint32-write_uint32 :
    (v : ℕ) (b : ByteArray)
    → IsValid b
    → VarintRoom b 5 v
    → v < 2 ^ 32
    → RoundTrip (write_uint32 v) read_uint32 v b
unfolding write_uint32 read_uint32
read_uint32-write_uint32 v b valid room h =
    read_varint-write_varint 32 4 v b valid room (omega arith) h

pub read_uint64-write_uint64 :
    (v : ℕ) (b : ByteArray)
    → IsValid b
    → VarintRoom b 10 v
    → v < 2 ^ 64
    → RoundTrip (write_uint64 v) read_uint64 v b
unfolding write_uint64 read_uint64
read_uint64-write_uint64 v b valid room h =
    read_varint-write_varint 64 9 v b valid room (omega arith) h
