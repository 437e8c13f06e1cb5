-- ===== src/ByteArray/Fixed.antt =====
-- The fixed-width formats: what goes over the wire, and that it is read back on any machine.
use mathlib.Core.List.{reverse-reverse, reverse}
use native.Mathlib.Nat.{pow-suc}
use native.Mathlib.Numerals.{towards_suc}
use server_demo.Common.{
  ℕ, zero, suc, ◌+◌, ◌*◌, ◌^◌, ◌<◌, ◌≡◌, refl, ap, ◌∙◌, subst, List, ◌++◌, arith, if◌then◌else◌,
}
use server_demo.Common.Int.{ℤ, IsInt, to_word, from_word}
use server_demo.ByteArray.State.{ByteArray, Endian, little, big, ok, after}
use server_demo.ByteArray.Buffer.{write, read}
use server_demo.ByteArray.Valid.{IsValid, unread, Room}
use server_demo.ByteArray.Stream.{read-Took_nonempty, write-Appended}
use server_demo.ByteArray.Words.{to_le, from_le, memory_of, value_of, byteswap}
use server_demo.ByteArray.WordLaws.{
  from_le-to_le, to_le-byteswap, wire, length-wire, to_word-lt, from_word-to_word,
}
use server_demo.ByteArray.Codec.{
  same_order, write_fixed, order_value, read_fixed, write_fint, read_fint,
}
use server_demo.ByteArray.RoundTrip.{RoundTrip, Puts, Takes, round_trip, Takes-map}

wire_bytes :
    (e host : Endian) (w v : ℕ) (b : ByteArray)
    → (if same_order e host
        then write (memory_of host w v) b
        else write (memory_of host w (byteswap w v)) b)
      ≡ write (wire e w v) b
unfolding memory_of
wire_bytes little little w v b = refl
wire_bytes big big w v b = refl
wire_bytes little big w v b = rw (to_le-byteswap w v, reverse-reverse (to_le w v))
wire_bytes big little w v b = rw (to_le-byteswap w v)

-- Whatever the byte order of the machine, the bytes written are those of the buffer's order.
pub write_fixed-wire :
    (host : Endian) (w v : ℕ) (b : ByteArray) → write_fixed host w v b ≡ write (wire b.endian w v) b
unfolding write_fixed
write_fixed-wire host w v b = wire_bytes b.endian host w v b

byteswap-byteswap : (w v : ℕ) → v < 256 ^ w → byteswap w (byteswap w v) ≡ v
unfolding byteswap
byteswap-byteswap w v h =
    ap (λ xs. from_le (reverse xs)) (to_le-byteswap w v)
    ∙ ap from_le (reverse-reverse (to_le w v))
    ∙ from_le-to_le w v h

wire_value :
    (e host : Endian) (w v : ℕ) (c : ByteArray)
    → v < 256 ^ w
    → (if same_order e host
        then ok (value_of host (wire e w v)) c
        else ok (byteswap w (value_of host (wire e w v))) c)
      ≡ ok v c
unfolding value_of byteswap
wire_value little little w v c h = rw (from_le-to_le w v h)
wire_value big big w v c h = rw (reverse-reverse (to_le w v), from_le-to_le w v h)
wire_value little big w v c h = ap (λ (n : ℕ). ok n c) (byteswap-byteswap w v h)
wire_value big little w v c h = ap (λ (n : ℕ). ok n c) (byteswap-byteswap w v h)

pub write_fixed-Puts :
    (host : Endian) (w v : ℕ) (b : ByteArray)
    → IsValid b
    → Room b w
    → Puts (write_fixed host w v) (wire b.endian w v) b
write_fixed-Puts host w v b valid room =
    let (c, run, a) =
      write-Appended (wire b.endian w v) b valid (rw (length-wire b.endian w v) room) in
    (c, write_fixed-wire host w v b ∙ run, a)

pub read_fixed-Takes :
    (host : Endian) (w v : ℕ) (rest : List ℕ) (b : ByteArray)
    → IsValid b
    → 0 < w
    → v < 256 ^ w
    → unread b ≡ wire b.endian w v ++ rest
    → Takes (read_fixed host w) v (wire b.endian w v) rest b
unfolding read_fixed order_value
read_fixed-Takes host w v rest b valid pos h e =
    let (c, run, t) =
      read-Took_nonempty (wire b.endian w v) rest b valid e (rw (length-wire b.endian w v) pos) in
    (
      c,
      ap (λ o. after o (λ bytes. order_value host w (value_of host bytes)))
            (subst (λ n. read n b ≡ ok (wire b.endian w v) c) (length-wire b.endian w v) run)
          ∙ rw t.moved.endian_eq (wire_value b.endian host w v c h),
      t,
    )

-- An unsigned integer of `w` bytes, `w` at least 1, that is written into a well-formed buffer
-- where `addCapacity` leaves room for it, by a machine of any byte order, is read back as it was
-- by a machine of any byte order once the position is set back, and the read ends where the write
-- did.
pub read_fixed-write_fixed :
    (writer reader : Endian) (w v : ℕ) (b : ByteArray)
    → IsValid b
    → Room b w
    → 0 < w
    → v < 256 ^ w
    → RoundTrip (write_fixed writer w v) (read_fixed reader w) v b
read_fixed-write_fixed writer reader w v b valid room pos h =
    round_trip (write_fixed writer w v) (read_fixed reader w) v (wire b.endian w v) b valid
      (write_fixed-Puts writer w v b valid room)
      (λ d rest k e u. rw (← e) (read_fixed-Takes reader w v rest d k pos h (rw e u)))

pub bytes_pow : (w : ℕ) → 2 ^ (8 * w) ≡ 256 ^ w
bytes_pow zero = refl
bytes_pow (suc w) =
    ap (λ (n : ℕ). 2 ^ n) (eight w)
    ∙ eightfold (8 * w)
    ∙ ap (λ (n : ℕ). 256 * n) (bytes_pow w)
    ∙ omega (arith, pow-suc 256 w)
  where
    eight : (w : ℕ) → 8 * suc w ≡ 8 * w + 8
    eight w = omega arith

    eightfold : (n : ℕ) → 2 ^ (n + 8) ≡ 256 * 2 ^ n
    eightfold n = simp towards_suc (omega arith)

-- A signed integer in the range of `w` bytes, `w` at least 1, that is written into a well-formed
-- buffer where `addCapacity` leaves room for it, by a machine of any byte order, is read back as
-- it was by a machine of any byte order once the position is set back, and the read ends where
-- the write did.
pub read_fint-write_fint :
    (writer reader : Endian) (w k : ℕ) (z : ℤ) (b : ByteArray)
    → IsValid b
    → Room b w
    → 8 * w ≡ suc k
    → IsInt k z
    → RoundTrip (write_fint writer w z) (read_fint reader w) z b
unfolding write_fint read_fint
read_fint-write_fint writer reader w k z b valid room e h =
    round_trip (write_fixed writer w word) (read_fint reader w) z (wire b.endian w word) b valid
      (write_fixed-Puts writer w word b valid room) (λ d rest l same u. taken d rest l same u)
  where
    word : ℕ
    word = to_word (8 * w) z

    back : from_word (8 * w) word ≡ z
    back = rw e (from_word-to_word k z h)

    taken :
        (d : ByteArray) (rest : List ℕ)
        → IsValid d
        → d.endian ≡ b.endian
        → unread d ≡ wire b.endian w word ++ rest
        → Takes (read_fint reader w) z (wire b.endian w word) rest d
    taken d rest l same u = rw (← same) (
        let (c, run, t) =
          Takes-map (read_fixed reader w) (from_word (8 * w)) word (wire d.endian w word) rest d (
            read_fixed-Takes reader w word rest d l (omega (arith, e))
              (rw (← bytes_pow w) (to_word-lt (8 * w) z)) (rw same u)) in
        (c, run ∙ ap (λ v. ok v c) back, t))
