-- ===== src/ByteArray/Varint.antt =====
-- The variable-length formats: seven bits to a byte, the lowest group first.
use Prim.Native.Nat.{bit_and, bit_or}
use native.Mathlib.Nat.{pow-suc, div-add-mod, mod-eq_of_lt}
use native.Mathlib.Numerals.{towards_suc}
use server_demo.Common.{
  ℕ, zero, suc, ◌+◌, ◌*◌, ◌/◌, ◌%◌, ◌^◌, ◌≤◌, ◌<◌, ◌≡◌, refl, ap, inl, inr, some, List, [], ◌∷◌,
  ◌++◌, arith, length, le-or-lt, lt→ltb, le→ltb_false,
}
use server_demo.Common.Bits.{and_127, or_add}
use server_demo.ByteArray.State.{ByteArray, after, return}
use server_demo.ByteArray.Valid.{IsValid, unread}
use server_demo.ByteArray.Stream.{read-Took_nonempty}
use server_demo.ByteArray.Words.{tmp_bytes}
use server_demo.ByteArray.Codec.{first, read_fuint8, read_varint}
use server_demo.ByteArray.RoundTrip.{Takes, Takes-bind}

pub read_fuint8-Takes :
    (x : ℕ) (rest : List ℕ) (b : ByteArray)
    → IsValid b
    → unread b ≡ x ∷ rest
    → Takes read_fuint8 x (x ∷ []) rest b
unfolding read_fuint8
read_fuint8-Takes x rest b v e =
    let (c, run, t) = read-Took_nonempty (x ∷ []) rest b v e (omega arith) in
    (c, ap (λ o. after o (λ bytes. return (first bytes))) run, t)

return-Takes :
    {A : Type 0} (a : A) (rest : List ℕ) (b : ByteArray)
    → IsValid b
    → unread b ≡ rest
    → Takes (return a) a [] rest b
return-Takes a rest b v e = (
  b,
  refl,
  record {
    moved = record {
      valid = v;
      position_eq = omega arith;
      size_eq = omega (arith, v.position_le);
      base_size_eq = refl;
      capacity_eq = refl;
      endian_eq = refl;
      contents_eq = refl;
    };
    rest_eq = e;
  },
)

shift_seven : (i : ℕ) → 2 ^ (i + 7) ≡ 128 * 2 ^ i
shift_seven i = simp towards_suc (omega arith)

-- The lowest seven bits of `v`, and the rest, at place `i`.
split_seven : (v i : ℕ) → v * 2 ^ i ≡ v % 128 * 2 ^ i + v / 128 * 2 ^ (i + 7)
split_seven v i = omega (
  arith,
  ap (λ (t : ℕ). t * 2 ^ i) (div-add-mod v 128),
  ap (λ (t : ℕ). v / 128 * t) (shift_seven i),
)

or_place :
    (bits i result x : ℕ)
    → result < 2 ^ i
    → x * 2 ^ i < 2 ^ bits
    → bit_or result (x * 2 ^ i % 2 ^ bits) ≡ result + x * 2 ^ i
or_place bits i result x low fits = rw (mod-eq_of_lt fits) (or_add i result x low)

-- A byte below 0x80 ends the loop.
last_round :
    (bits rounds i result v : ℕ) (rest : List ℕ) (b : ByteArray)
    → IsValid b
    → v < 128
    → result < 2 ^ i
    → v * 2 ^ i < 2 ^ bits
    → unread b ≡ v ∷ rest
    → Takes (read_varint bits (suc rounds) i result) (result + v * 2 ^ i) (v ∷ []) rest b
unfolding read_varint
last_round bits rounds i result v rest b valid h low fits e =
    Takes-bind read_fuint8 _ v (result + v * 2 ^ i) (v ∷ []) [] rest b
      (read_fuint8-Takes v rest b valid e)
      (λ c t.
        rw (lt→ltb v 0x80 h, or_place bits i result v low fits)
          (return-Takes (result + v * 2 ^ i) rest c t.moved.valid t.rest_eq))

-- Any other byte adds its seven bits, and the loop goes on.
inner_round :
    (bits rounds i result g w : ℕ) (bytes rest : List ℕ) (b : ByteArray)
    → IsValid b
    → g < 128
    → result < 2 ^ i
    → g * 2 ^ i < 2 ^ bits
    → unread b ≡ (g + 128) ∷ bytes ++ rest
    → ((c : ByteArray)
        → IsValid c
        → unread c ≡ bytes ++ rest
        → Takes (read_varint bits rounds (i + 7) (result + g * 2 ^ i)) w bytes rest c)
    → Takes (read_varint bits (suc rounds) i result) w ((g + 128) ∷ bytes) rest b
unfolding read_varint
inner_round bits rounds i result g w bytes rest b valid h low fits e next =
    let group : bit_and (g + 128) 0x7f ≡ g = omega (arith, and_127 (g + 128)) in
    Takes-bind read_fuint8 _ (g + 128) w ((g + 128) ∷ []) bytes rest b
      (read_fuint8-Takes (g + 128) (bytes ++ rest) b valid e)
      (λ c t.
        rw (le→ltb_false (g + 128) 0x80 (omega arith), group, or_place bits i result g low fits)
          (next c t.moved.valid t.rest_eq))

-- What the loop of `writeUint32` leaves in `tmp`, and that the loop of `readUint32` undoes it.
abbrev Coded : ℕ → ℕ → List ℕ → Type 0
Coded room v bytes =
    (tmp_bytes room v ≡ some bytes)
    × (1 ≤ length bytes)
    × (length bytes ≤ room)
    × ((bits i result : ℕ) (rest : List ℕ) (b : ByteArray)
        → IsValid b
        → result < 2 ^ i
        → v * 2 ^ i < 2 ^ bits
        → unread b ≡ bytes ++ rest
        → Takes (read_varint bits room i result) (result + v * 2 ^ i) bytes rest b)

Coded-last : (room v : ℕ) → v < 128 → Coded (suc room) v (v ∷ [])
unfolding tmp_bytes
Coded-last room v h = (
  ground arith,
  omega arith,
  omega arith,
  λ bits i result rest b valid low fits e.
      last_round bits room i result v rest b valid h low fits e,
)

top_bit : (v : ℕ) → bit_or (bit_and v 0x7f) 0x80 ≡ v % 128 + 128
top_bit v = rw (and_127 v) (or_add 7 (v % 128) 1 (omega arith))

Coded-further :
    (room v : ℕ) (bytes : List ℕ)
    → 128 ≤ v
    → Coded room (v / 128) bytes
    → Coded (suc room) v ((v % 128 + 128) ∷ bytes)
unfolding tmp_bytes
Coded-further room v bytes h (run, lo, hi, takes) = (
  ground (arith, top_bit v),
  omega arith,
  omega arith,
  λ bits i result rest b valid low fits e.
      let split = split_seven v i in
      let total : result + v % 128 * 2 ^ i + v / 128 * 2 ^ (i + 7) ≡ result + v * 2 ^ i =
        omega (arith, split) in
      rw (← total) (
        inner_round bits room i result (v % 128) _ bytes rest b valid (omega arith) low
          (omega (arith, split)) e
          (λ c valid' e'.
            takes bits (i + 7) (result + v % 128 * 2 ^ i) rest c valid'
              (carry i (v % 128) result low (omega arith)) (omega (arith, split)) e')),
)
  where
    carry : (i g result : ℕ) → result < 2 ^ i → g < 128 → result + g * 2 ^ i < 2 ^ (i + 7)
    carry i g result low h = grind (arith, shift_seven i)

-- `room` bytes of `tmp` hold every value below 128 ^ room: the loop never stores behind its end.
pub tmp_bytes-Coded : (k v : ℕ) → v < 128 ^ suc k → (bytes : List ℕ) × Coded (suc k) v bytes
tmp_bytes-Coded zero v h = (v ∷ [], Coded-last 0 v (omega arith))
tmp_bytes-Coded (suc k) v h = elim (le-or-lt 128 v) [
  | inl large ↦
      let (bytes, c) = tmp_bytes-Coded k (v / 128) (omega (arith, pow-suc 128 (suc k))) in
      ((v % 128 + 128) ∷ bytes, Coded-further (suc k) v bytes large c)
  | inr small ↦ (v ∷ [], Coded-last (suc k) v small)
]
