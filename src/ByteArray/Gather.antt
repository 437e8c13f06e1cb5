-- ===== src/ByteArray/Gather.antt =====
-- The `iovec`s of `getReadBuffers` point to exactly the bytes that a read would return, and those of
-- `getWriteBuffers` to as many bytes as were asked for.
use server_demo.Common.{
  ℕ, ◌+◌, ◌-◌, ◌*◌, ◌%◌, ◌≤◌, ◌<◌, min, ◌≡◌, refl, sym, ap, ◌∙◌, inl, inr, some, List, [], ◌∷◌,
  ◌++◌, flatten, append-nil, append_assoc, arith, length, take, drop, le-or-lt, eq-or-ne,
  length-append, length-drop, drop-append_left, drop-append_right, take-append_left,
  take-append_right, take_all, take-take,
}
use server_demo.ByteArray.State.{Node, ByteArray, ok, get_read_size, get_capacity}
use server_demo.ByteArray.Buffer.{add_capacity}
use server_demo.ByteArray.Blocks.{Blocks, length-flatten}
use server_demo.ByteArray.Cursor.{some_block}
use server_demo.ByteArray.Valid.{IsValid, contents, unread, Room, offset_eq}
use server_demo.ByteArray.Moves.{cursor_block}
use server_demo.ByteArray.Capacity.{Extended, add_capacity-Extended}
use server_demo.ByteArray.Iovecs.{
  Iovec, iov_loop, clip, get_read_buffers, get_write_buffers, block_at, gather,
}

block_at-append :
    (before rest : List Node) (node : Node)
    → block_at (before ++ (node ∷ rest)) (length before) ≡ node
unfolding block_at
block_at-append [] rest node = refl
block_at-append (x ∷ before) rest node = block_at-append before rest node

-- The loop describes the next `len` bytes, block by block.
abbrev Described : (before cur : List Node) (npos len : ℕ) → Type 0
Described before cur npos len =
    (iovs : List Iovec) × (iov_loop (length before) cur npos len ≡ some iovs)
    × (gather (before ++ cur) iovs ≡ take len (drop npos (flatten cur)))

Described-last :
    (before rest : List Node) (node : Node) (npos len : ℕ)
    → len ≤ length node - npos
    → npos ≤ length node
    → Described before (node ∷ rest) npos len
unfolding iov_loop gather flatten
Described-last before rest node npos len fits le = elim (eq-or-ne len 0) [
  | inl nothing ↦ ([], ground arith, rw nothing)
  | inr some_bytes ↦ (
    record { block = length before; offset = npos; iov_len = len } ∷ [],
    ground arith,
    rw (block_at-append before rest node, append-nil, drop-append_left npos node (flatten rest) le)
        (sym (
          take-append_left len (drop npos node) (flatten rest)
            (omega (arith, length-drop npos node)))),
  )
]

Described-further :
    (before rest : List Node) (node : Node) (npos len : ℕ)
    → npos ≤ length node
    → length node - npos < len
    → Described (before ++ (node ∷ [])) rest 0 (len - (length node - npos))
    → Described before (node ∷ rest) npos len
unfolding iov_loop gather flatten
Described-further before rest node npos len le over (iovs, run, points) = (
  record { block = length before; offset = npos; iov_len = length node - npos } ∷ iovs,
  ground (arith, rw (length-append before (node ∷ [])) at run),
  rw
      (
        block_at-append before rest node,
        take_all (length node - npos) (drop npos node) (omega (arith, length-drop npos node)),
        drop-append_left npos node (flatten rest) le,
      )
      (ap (◌++◌ (drop npos node)) (rw (append_assoc before (node ∷ []) rest) at points)
        ∙ sym (
            take-append_right len (len - (length node - npos)) (drop npos node) (flatten rest)
              (omega (arith, length-drop npos node)))),
)

iov_loop_lem :
    (base : ℕ) (before cur : List Node) (npos len : ℕ)
    → 0 < base
    → Blocks base cur
    → npos < base
    → 0 < length cur
    → npos + len ≤ base * length cur
    → Described before cur npos len
iov_loop_lem base before [] npos len pos k lt nonempty room = absurd (omega arith)
iov_loop_lem base before (node ∷ rest) npos len pos k lt nonempty room =
    elim (le-or-lt len (length node - npos)) [
      | inl fits ↦ Described-last before rest node npos len fits (omega (arith, k.0))
      | inr over ↦ Described-further before rest node npos len (omega (arith, k.0)) over (
          iov_loop_lem base (before ++ (node ∷ [])) rest 0 (len - (length node - npos)) pos k.1 pos
            (some_block base rest (omega (arith, k.0))) (omega (arith, k.0)))
    ]

clip-min : (b : ByteArray) (len : ℕ) → clip b len ≡ min len (b.size - b.position)
unfolding get_read_size
clip-min b len = ground arith

-- What both methods ask the loop at the cursor for.
at_cursor :
    (b : ByteArray) (n : ℕ)
    → IsValid b
    → 0 < n
    → n ≤ b.capacity - b.position
    → (iovs : List Iovec) × (iov_loop (length b.before) b.cur (b.position % b.base_size) n
        ≡ some iovs)
      × (gather (b.before ++ b.cur) iovs ≡ take n (drop b.position (contents b)))
at_cursor b n v nonempty room =
    let (iovs, run, points) =
      iov_loop_lem b.base_size b.before b.cur npos n v.base_pos v.cursor.blocks_cur
        (omega (arith, v.cursor.to, v.cursor.from))
        (cursor_block b v (omega (arith, nonempty, room)))
        (omega (arith, room, nonempty, v.capacity_eq, v.cursor.from)) in
    (
      iovs,
      rw (offset_eq b v) run,
      points
          ∙ ap (take n) (
              sym (
                drop-append_right b.position npos (flatten b.before) (flatten b.cur) (
                  omega (
                    arith,
                    v.cursor.from,
                    length-flatten b.base_size b.before v.cursor.blocks_before,
                  )))),
    )
  where
    npos : ℕ
    npos = b.position - b.base_size * length b.before

-- `getReadBuffers` on a well-formed buffer returns the smaller of `len` and the number of unread
-- bytes, and its `iovec`s hold exactly that many of the first unread bytes, in order.
pub get_read_buffers-unread :
    (len : ℕ) (b : ByteArray)
    → IsValid b
    → (iovs : List Iovec) × (get_read_buffers len b ≡ some (min len (b.size - b.position), iovs))
      × (gather (b.before ++ b.cur) iovs ≡ take (min len (b.size - b.position)) (unread b))
unfolding get_read_buffers gather
get_read_buffers-unread len b v = elim (eq-or-ne n 0) [
  | inl nothing ↦ ([], rw (clip-min b len, nothing), rw nothing)
  | inr some_bytes ↦
      let (iovs, run, points) = at_cursor b n v (omega arith) (omega (arith, v.size_le)) in
      (
        iovs,
        rw (clip-min b len, run) (ground (arith, some_bytes)),
        points
            ∙ sym (take-take n (b.size - b.position) (drop b.position (contents b)) (omega arith)),
      )
]
  where
    n : ℕ
    n = min len (b.size - b.position)

-- `getWriteBuffers` of at least one byte on a well-formed buffer where `addCapacity` leaves room
-- returns `len`, its `iovec`s hold exactly the `len` bytes of memory behind the position, in
-- order, and the buffer is extended as `addCapacity` does it.
pub get_write_buffers-Room :
    (len : ℕ) (b : ByteArray)
    → IsValid b
    → 0 < len
    → Room b len
    → (iovs : List Iovec) × (c : ByteArray) × (get_write_buffers len b ≡ ok (len, iovs) c)
      × Extended b c
      × (gather (c.before ++ c.cur) iovs ≡ take len (drop c.position (contents c)))
unfolding get_write_buffers get_capacity
get_write_buffers-Room len b v nonempty room =
    let e = add_capacity-Extended len b v in
    let (iovs, run, points) = at_cursor (add_capacity len b) len e.valid nonempty room in
    (iovs, add_capacity len b, rw run (ground (arith, nonempty)), e, points)
