-- ===== src/ByteArray/Stream.antt =====
-- A buffer as a stream: what `write` put at the position is what `read` hands out from there.
use server_demo.Common.{
  ℕ, ◌+◌, ◌-◌, ◌≤◌, ◌<◌, ◌≡◌, sym, ap, ◌∙◌, List, ◌++◌, append_assoc, arith, length, take, drop,
  length-append, length-take, length-drop, take-append_left, take-append_right, drop-append_right,
  drop-drop, take-take, drop-take, take-length, drop-length, take-add,
}
use server_demo.ByteArray.State.{ByteArray, ok, get_read_size}
use server_demo.ByteArray.Buffer.{copy_in, write, read, set_position}
use server_demo.ByteArray.Valid.{IsValid, contents, unread, Room, length-contents}
use server_demo.ByteArray.Access.{Wrote, write-Wrote}
use server_demo.ByteArray.Moves.{Moved, read-Moved}
use server_demo.ByteArray.Seek.{set_position-Moved}

-- `b` became `c` by handing out `bytes`; `rest` is still unread.
pub record Took (b c : ByteArray) (bytes rest : List ℕ) : Type 0 where
  pub moved : Moved b c (b.position + length bytes)
  pub rest_eq : unread c ≡ rest

length-unread : (b : ByteArray) → IsValid b → length (unread b) ≡ b.size - b.position
length-unread b v = omega (
  arith,
  length-take (b.size - b.position) (drop b.position (contents b)),
  length-drop b.position (contents b),
  length-contents b v,
  v.size_le,
)

-- `read` of the first bytes that are unread in a well-formed buffer, whose position is below its
-- capacity, returns exactly these bytes, moves the position behind them, leaves the rest unread,
-- and keeps memory, capacity, block size, byte order and well-formedness.
pub read-Took :
    (bytes rest : List ℕ) (b : ByteArray)
    → IsValid b
    → unread b ≡ bytes ++ rest
    → b.position < b.capacity
    → (c : ByteArray) × (read (length bytes) b ≡ ok bytes c) × Took b c bytes rest
unfolding get_read_size
read-Took bytes rest b v e inner =
    finish (read-Moved (length bytes) b v (omega (arith, size)) inner)
  where
    n : ℕ
    n = length bytes

    size : n + length rest ≡ b.size - b.position
    size = omega (arith, length-unread b v, ap length e, length-append bytes rest)

    front : take n (drop b.position (contents b)) ≡ bytes
    front =
        sym (take-take n (b.size - b.position) (drop b.position (contents b)) (omega (arith, size)))
        ∙ ap (take n) e
        ∙ take-length bytes rest

    left :
        (c : ByteArray) → Moved b c (b.position + n) → c.size - c.position ≡ b.size - b.position - n
    left c m = omega (arith, m.size_eq, m.position_eq, size)

    behind : (c : ByteArray) → Moved b c (b.position + n) → unread c ≡ rest
    behind c m =
        rw (m.contents_eq, left c m, m.position_eq)
          (ap (take (b.size - b.position - n))
              (sym (drop-drop n b.position (b.position + n) (contents b) (omega arith)))
            ∙ sym (
                drop-take n (b.size - b.position) (b.size - b.position - n)
                  (drop b.position (contents b)) (omega (arith, size)))
            ∙ ap (drop n) e
            ∙ drop-length bytes rest)

    finish :
        (c : ByteArray) × (read n b ≡ ok (take n (drop b.position (contents b))) c)
          × Moved b c (b.position + n)
        → (c : ByteArray) × (read n b ≡ ok bytes c) × Took b c bytes rest
    finish (c, run, m) =
        (c, run ∙ ap (λ xs. ok xs c) front, record { moved = m; rest_eq = behind c m })

-- Any bytes at all: the position then stands inside the blocks.
pub read-Took_nonempty :
    (bytes rest : List ℕ) (b : ByteArray)
    → IsValid b
    → unread b ≡ bytes ++ rest
    → 0 < length bytes
    → (c : ByteArray) × (read (length bytes) b ≡ ok bytes c) × Took b c bytes rest
read-Took_nonempty bytes rest b v e h =
    read-Took bytes rest b v e
      (omega (arith, length-unread b v, ap length e, length-append bytes rest, v.size_le))

-- `b` became `c` by writing `bytes` behind what stands before the position.
pub record Appended (b c : ByteArray) (bytes : List ℕ) : Type 0 where
  pub valid : IsValid c
  pub position_eq : c.position ≡ b.position + length bytes
  pub endian_eq : c.endian ≡ b.endian
  pub written_eq : take c.position (contents c) ≡ take b.position (contents b) ++ bytes

Wrote-Appended : (buf : List ℕ) (b c : ByteArray) → IsValid b → Wrote buf b c → Appended b c buf
unfolding copy_in
Wrote-Appended buf b c v w = record {
  valid = w.valid;
  position_eq = w.position_eq;
  endian_eq = w.endian_eq;
  written_eq =
      rw
        (
          w.contents_eq,
          w.position_eq,
          copy_in,
          take-append_left b.position (contents b) w.filler inside,
        )
        (rw
          (take-append_right (b.position + length buf) (length buf) (take b.position (contents b)) _
            (omega (arith, length-take b.position (contents b), inside)))
          (ap (◌++◌ (take b.position (contents b))) (take-length buf _)));
}
  where
    inside : b.position ≤ length (contents b)
    inside = omega (arith, length-contents b v, v.position_le, v.size_le)

pub write-Appended :
    (buf : List ℕ) (b : ByteArray)
    → IsValid b
    → Room b (length buf)
    → (c : ByteArray) × (write buf b ≡ ok tt c) × Appended b c buf
write-Appended buf b v room =
    let (c, run, w) = write-Wrote buf b v room in (c, run, Wrote-Appended buf b c v w)

pub Appended-trans :
    (b c d : ByteArray) (xs ys : List ℕ)
    → Appended b c xs
    → Appended c d ys
    → Appended b d (xs ++ ys)
Appended-trans b c d xs ys f g = record {
  valid = g.valid;
  position_eq = omega (arith, f.position_eq, g.position_eq, length-append xs ys);
  endian_eq = g.endian_eq ∙ f.endian_eq;
  written_eq = g.written_eq ∙ ap (λ zs. zs ++ ys) f.written_eq ∙ append_assoc _ xs ys;
}

-- What was appended is unread again once the position is set back.
pub set_position-unread :
    (b c : ByteArray) (bytes : List ℕ)
    → IsValid b
    → Appended b c bytes
    → (d : ByteArray) × (set_position b.position c ≡ ok tt d)
      × Moved c d b.position
      × (rest : List ℕ) × (unread d ≡ bytes ++ rest)
set_position-unread b c bytes v a = finish (
    set_position-Moved b.position c a.valid
      (omega (arith, a.position_eq, a.valid.position_le, a.valid.size_le)))
  where
    rest : List ℕ
    rest = take (c.size - c.position) (drop c.position (contents c))

    before : length (take b.position (contents b)) ≡ b.position
    before =
        omega (
          arith,
          length-take b.position (contents b),
          length-contents b v,
          v.position_le,
          v.size_le,
        )

    again : take (c.size - b.position) (drop b.position (contents c)) ≡ bytes ++ rest
    again =
        sym (
          drop-take b.position c.size (c.size - b.position) (contents c)
            (omega (arith, a.position_eq, a.valid.position_le)))
        ∙ ap (drop b.position) (
            take-add c.position c.size (c.size - c.position) (contents c)
              (omega (arith, a.valid.position_le))
            ∙ ap (λ xs. xs ++ rest) a.written_eq
            ∙ append_assoc (take b.position (contents b)) bytes rest)
        ∙ drop-append_right b.position 0 (take b.position (contents b)) (bytes ++ rest)
            (omega (arith, before))

    finish :
        (d : ByteArray) × (set_position b.position c ≡ ok tt d) × Moved c d b.position
        → (d : ByteArray) × (set_position b.position c ≡ ok tt d)
          × Moved c d b.position
          × (rest : List ℕ) × (unread d ≡ bytes ++ rest)
    finish (d, run, m) = (d, run, m, rest, rw (m.contents_eq, size d m, m.position_eq) again)
      where
        size : (d : ByteArray) → Moved c d b.position → d.size - d.position ≡ c.size - b.position
        size d m = omega (arith, m.size_eq, m.position_eq, a.position_eq, a.valid.position_le)
