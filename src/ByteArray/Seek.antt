-- ===== src/ByteArray/Seek.antt =====
-- `setPosition` and `toString`, and the calls of `write` and `read` that do not return.
use server_demo.Common.{
  ℕ, ◌+◌, ◌-◌, ◌*◌, ◌≤◌, ◌<◌, ◌≡◌, ◌≢◌, inl, inr, refl, sym, ap, ◌∙◌, none, List, [], ◌∷◌, ◌++◌,
  arith, length, take, drop, length-append, length-drop, le→ltb_false, lt→ltb, eq-or-ne, ltb,
  if◌then◌else◌,
}
use server_demo.ByteArray.State.{
  Node, ByteArray, ok, out_of_range, fault, get_read_size, get_capacity,
}
use server_demo.ByteArray.Buffer.{
  add_capacity, copy_in, write_loop, store, write, read_loop, read, read_at, set_position,
  to_string,
}
use server_demo.ByteArray.Blocks.{Blocks, Blocks-append}
use server_demo.ByteArray.ReadLoop.{Sought, seek_lem}
use server_demo.ByteArray.Valid.{IsValid, unread, Room, offset_eq}
use server_demo.ByteArray.Capacity.{add_capacity-Extended}
use server_demo.ByteArray.Moves.{Moved, same_chain, read-Moved}

-- `setPosition` of a well-formed buffer to a place within its capacity succeeds: the position is
-- that place, the size is raised to it if it was less, and memory, capacity, block size, byte
-- order and well-formedness are kept.
pub set_position-Moved :
    (n : ℕ) (b : ByteArray)
    → IsValid b
    → n ≤ b.capacity
    → (c : ByteArray) × (set_position n b ≡ ok tt c) × Moved b c n
unfolding set_position
set_position-Moved n b v h = finish (
    seek_lem b.base_size v.base_pos [] (b.before ++ b.cur) n n tt
      (Blocks-append b.base_size b.before b.cur v.cursor.blocks_before v.cursor.blocks_cur)
      (omega (arith, v.chain_pos, blocks))
      (omega (arith, h, v.capacity_eq, ap (λ (l : ℕ). b.base_size * l) blocks)) (omega arith))
  where
    blocks : length (b.before ++ b.cur) ≡ length b.before + length b.cur
    blocks = length-append b.before b.cur

    finish :
        Sought b.base_size v.base_pos [] (b.before ++ b.cur) n n
        → (c : ByteArray) × (set_position n b ≡ ok tt c) × Moved b c n
    finish ((before', cur'), run, at, same) =
        let chain = same_chain b.before b.cur before' cur' same in
        (
          record b {
            position = n;
            size = if ltb b.size n then n else b.size;
            before = before';
            cur = cur';
          },
          rw (le→ltb_false b.capacity n h, run),
          record {
            valid = record {
              base_pos = v.base_pos;
              cursor = at;
              capacity_eq = v.capacity_eq ∙ ap (λ (l : ℕ). b.base_size * l) (sym chain.1);
              chain_pos = omega (arith, v.chain_pos, chain.1);
              position_le = ground arith;
              size_le = ground (arith, v.size_le);
            };
            position_eq = refl;
            size_eq = ground arith;
            base_size_eq = refl;
            capacity_eq = refl;
            endian_eq = refl;
            contents_eq = chain.0;
          },
        )

-- Past the capacity it throws, and changes nothing.
pub set_position_out : (n : ℕ) (b : ByteArray) → b.capacity < n → set_position n b ≡ out_of_range b
unfolding set_position
set_position_out n b h = rw (lt→ltb b.capacity n h)

-- `read` beyond the data throws, and changes nothing.
pub read_out : (n : ℕ) (b : ByteArray) → get_read_size b < n → read n b ≡ out_of_range b
unfolding read
read_out n b h = rw (lt→ltb (get_read_size b) n h)

-- `read` of no byte at all from a well-formed buffer whose position is at its capacity goes
-- through a null pointer.
pub read_end_fault : (b : ByteArray) → IsValid b → b.position ≡ b.capacity → read 0 b ≡ fault
unfolding read read_loop get_read_size
read_end_fault b v e = at_end b.cur refl
  where
    at_end : (xs : List Node) → xs ≡ b.cur → read 0 b ≡ fault
    at_end [] h = rw (← h, read, read_loop, le→ltb_false (get_read_size b) 0 (omega arith))
    at_end (x ∷ xs) h = absurd (
        omega (arith, e, v.cursor.to, v.capacity_eq, ap (λ (l : ℕ). b.base_size * l) (ap length h)))

write_loop_short :
    (base : ℕ) (before cur : List Node) (npos : ℕ) (buf : List ℕ)
    → Blocks base cur
    → npos < base
    → base * length cur < npos + length buf
    → write_loop before cur npos buf ≡ none
unfolding write_loop
write_loop_short base before [] npos buf h lt short = refl
write_loop_short base before (node ∷ rest) npos buf h lt short =
    let ncap = length node - npos in
    let part = copy_in node npos (take ncap buf) in
    let over : ncap < length buf = omega (arith, h.0) in
    ground (
      arith,
      over,
      write_loop_short base (before ++ (part ∷ [])) rest 0 (drop ncap buf) h.1 (omega arith)
          (omega (arith, length-drop ncap buf, h.0)),
    )

-- `write` into a well-formed buffer goes through a null pointer whenever `addCapacity` does not
-- leave room for the bytes.
pub write_fault :
    (buf : List ℕ) (b : ByteArray) → IsValid b → ¬ Room b (length buf) → write buf b ≡ fault
unfolding write store get_capacity
write_fault buf b v full =
    let short : length buf ≢ 0 = λ z. full (omega arith) in ground (arith, short, full, stored)
  where
    c : ByteArray
    c = add_capacity (length buf) b

    v' : IsValid c
    v' = (add_capacity-Extended (length buf) b v).valid

    short : c.capacity < c.position + length buf
    short = omega (arith, v'.position_le, v'.size_le, full)

    stored : store buf c ≡ fault
    stored = rw (
      offset_eq c v',
      store,
      write_loop_short c.base_size c.before c.cur (c.position - c.base_size * length c.before) buf
          v'.cursor.blocks_cur (omega (arith, v'.cursor.to, v'.cursor.from))
          (omega (arith, short, v'.cursor.from, v'.capacity_eq)),
    )

-- The reading `const` method takes what `read` takes, and moves nothing.
pub read_at_lem :
    (n : ℕ) (b c : ByteArray) (bytes : List ℕ)
    → read n b ≡ ok bytes c
    → read_at n b.position b ≡ ok bytes b
unfolding read read_at
read_at_lem n b c bytes h = ground arith

-- `toString` of a well-formed buffer returns the bytes from the position up to the size and
-- leaves the buffer as it is.
pub to_string-unread : (b : ByteArray) → IsValid b → to_string b ≡ ok (unread b) b
unfolding to_string get_read_size
to_string-unread b v = elim (eq-or-ne (b.size - b.position) 0) [
  | inl empty ↦ rw (empty, to_string)
  | inr some_bytes ↦
      let (c, run, m) =
        read-Moved (b.size - b.position) b v (omega arith) (omega (arith, v.size_le, some_bytes)) in
      ground (arith, some_bytes, read_at_lem (b.size - b.position) b c (unread b) run)
]
