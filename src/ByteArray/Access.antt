-- ===== src/ByteArray/Access.antt =====
-- `write`, `read`, `setPosition` and `toString` against the flat memory.
use server_demo.Common.{
  ℕ, suc, ◌+◌, ◌-◌, ◌*◌, ◌≤◌, ◌<◌, max, ◌≡◌, refl, sym, ap, ◌∙◌, List, [], ◌∷◌, ◌++◌, flatten,
  append-nil, append_assoc, arith, length, take, take-append_right, drop-append_right,
  take-append-drop, ltb, if◌then◌else◌,
}
use server_demo.ByteArray.State.{ByteArray, ok, get_capacity}
use server_demo.ByteArray.Buffer.{add_capacity, copy_in, store, write}
use server_demo.ByteArray.Blocks.{length-flatten}
use server_demo.ByteArray.WriteLoop.{Written, write_loop_lem}
use server_demo.ByteArray.Valid.{IsValid, contents, Room, offset_eq}
use server_demo.ByteArray.Capacity.{Extended, add_capacity-Extended}

pub copy_in-append_right :
    (npos k : ℕ) (buf xs ys : List ℕ)
    → npos ≡ length xs + k
    → copy_in (xs ++ ys) npos buf ≡ xs ++ copy_in ys k buf
unfolding copy_in
copy_in-append_right npos k buf xs ys h =
    rw
      (
        take-append_right npos k xs ys h,
        drop-append_right (npos + length buf) (k + length buf) xs ys (omega arith),
      )
      (append_assoc xs (take k ys) _)

copy_in-nil : (npos : ℕ) (xs : List ℕ) → copy_in xs npos [] ≡ xs
unfolding copy_in
copy_in-nil npos xs = let e : npos + 0 ≡ npos = omega arith in rw e (take-append-drop npos xs)

-- `b` became `c` by writing `buf` at the position: one memcpy into the flat memory, which may first
-- have grown.
pub record Wrote (buf : List ℕ) (b c : ByteArray) : Type 0 where
  pub valid : IsValid c
  pub position_eq : c.position ≡ b.position + length buf
  pub size_eq : c.size ≡ max b.size (b.position + length buf)
  pub base_size_eq : c.base_size ≡ b.base_size
  pub endian_eq : c.endian ≡ b.endian
  pub filler : List ℕ
  pub contents_eq : contents c ≡ copy_in (contents b ++ filler) b.position buf

store-Wrote :
    (buf : List ℕ) (b : ByteArray)
    → IsValid b
    → 0 < length buf
    → length buf ≤ get_capacity b
    → (c : ByteArray) × (store buf b ≡ ok tt c) × Wrote buf b c
unfolding store get_capacity
store-Wrote buf b v nonempty room = finish (
    write_loop_lem b.base_size v.base_pos b.before b.cur npos (b.position + length buf) buf
      v.cursor.blocks_before v.cursor.blocks_cur (omega (arith, v.cursor.to)) nonempty
      (omega (arith, room, v.capacity_eq, v.cursor.from)) (omega (arith, v.cursor.from)))
  where
    npos : ℕ
    npos = b.position - b.base_size * length b.before

    finish :
        Written b.base_size v.base_pos b.before b.cur npos (b.position + length buf) buf
        → (c : ByteArray) × (store buf b ≡ ok tt c) × Wrote buf b c
    finish (out, run, at, count, copied) = (
      record b {
        before = out.0;
        cur = out.1;
        position = b.position + length buf;
        size = if ltb b.size (b.position + length buf) then b.position + length buf else b.size;
      },
      rw (offset_eq b v, store, run),
      record {
        valid = record {
          base_pos = v.base_pos;
          cursor = at;
          capacity_eq = v.capacity_eq ∙ ap (λ (n : ℕ). b.base_size * n) (sym count);
          chain_pos = omega (arith, count, v.chain_pos);
          position_le = ground arith;
          size_le = ground (arith, v.size_le, room, v.position_le);
        };
        position_eq = refl;
        size_eq = ground arith;
        base_size_eq = refl;
        endian_eq = refl;
        filler = [];
        contents_eq =
            copied
            ∙ sym (
                rw append-nil (
                  copy_in-append_right b.position npos buf (flatten b.before) (flatten b.cur) (
                    omega (
                      arith,
                      v.cursor.from,
                      length-flatten b.base_size b.before v.cursor.blocks_before,
                    ))));
      },
    )

-- `write` into a well-formed buffer succeeds if `addCapacity` leaves room for the bytes: it
-- copies them to the position in the flat memory (extended by some filler where blocks were
-- added), moves the position behind them, raises the size to the position if that is more, keeps
-- block size and byte order, and leaves the buffer well-formed.
pub write-Wrote :
    (buf : List ℕ) (b : ByteArray)
    → IsValid b
    → Room b (length buf)
    → (c : ByteArray) × (write buf b ≡ ok tt c) × Wrote buf b c
unfolding write
write-Wrote [] b v room = (
  b,
  refl,
  record {
    valid = v;
    position_eq = omega arith;
    size_eq = omega (arith, v.position_le);
    base_size_eq = refl;
    endian_eq = refl;
    filler = [];
    contents_eq = rw append-nil (sym (copy_in-nil b.position (contents b)));
  },
)
write-Wrote (x ∷ xs) b v room = through (store-Wrote (x ∷ xs) grown e.valid (omega arith) room)
  where
    grown : ByteArray
    grown = add_capacity (suc (length xs)) b

    e : Extended b grown
    e = add_capacity-Extended (suc (length xs)) b v

    through :
        (c : ByteArray) × (store (x ∷ xs) grown ≡ ok tt c) × Wrote (x ∷ xs) grown c
        → (c : ByteArray) × (write (x ∷ xs) b ≡ ok tt c) × Wrote (x ∷ xs) b c
    through (c, run, w) = (
      c,
      ground arith,
      record {
        valid = w.valid;
        position_eq = omega (arith, w.position_eq, e.position_eq);
        size_eq = omega (arith, w.size_eq, e.size_eq, e.position_eq);
        base_size_eq = w.base_size_eq ∙ e.base_size_eq;
        endian_eq = w.endian_eq ∙ e.endian_eq;
        filler = e.filler ++ w.filler;
        contents_eq = w.contents_eq ∙ simp (e.contents_eq, e.position_eq, append_assoc);
      },
    )
