-- ===== src/ByteArray/Iovecs.antt =====
-- `getReadBuffers` and `getWriteBuffers` of sylar/bytearray.cc: the blocks handed to scatter/gather
-- input and output.
use server_demo.Common.{
  ℕ, zero, suc, ◌+◌, ◌-◌, ◌/◌, ◌%◌, Option, none, some, List, [], ◌∷◌, ◌++◌, length, take, drop,
  ltb, ◌==◌, leb, if◌then◌else◌,
}
use server_demo.ByteArray.State.{Node, ByteArray, ok, fault, M, get_read_size}
use server_demo.ByteArray.Buffer.{add_capacity}

-- An `iovec`: the address is an offset into the block with this number, counted from `m_root`.
pub record Iovec : Type 0 where
  pub block : ℕ
  pub offset : ℕ
  pub iov_len : ℕ

-- The loop that the three methods share; `none` is a null pointer.
unfoldable pub iov_loop : ℕ → List Node → ℕ → ℕ → Option (List Iovec)
iov_loop block [] npos len = none
iov_loop block (node ∷ rest) npos len =
    let ncap = length node - npos in
    let further = iov_loop (block + 1) rest 0 (len - ncap) in
    if len == 0
    then some []
    else if leb len ncap
    then some (record { block = block; offset = npos; iov_len = len } ∷ [])
    else elim further [
      | none ↦ none
      | some iovs ↦ some (record { block = block; offset = npos; iov_len = ncap } ∷ iovs)
    ]

-- The returned size and what is pushed onto `buffers`, or `none` for a null pointer.
abbrev pub sized : ℕ → Option (List Iovec) → Option (ℕ × List Iovec)
sized n none = none
sized n (some iovs) = some (n, iovs)

abbrev pub clip : ByteArray → ℕ → ℕ
clip b len = if ltb (get_read_size b) len then get_read_size b else len

unfoldable pub get_read_buffers : ℕ → ByteArray → Option (ℕ × List Iovec)
get_read_buffers len b =
    let n = clip b len in
    if n == 0
    then some (0, [])
    else sized n (iov_loop (length b.before) b.cur (b.position % b.base_size) n)

-- With a position of its own the block is looked for from `m_root` on.
unfoldable pub get_read_buffers_at : ℕ → ℕ → ByteArray → Option (ℕ × List Iovec)
get_read_buffers_at len position b =
    let n = clip b len in
    let count = position / b.base_size in
    if n == 0
    then some (0, [])
    else sized n (iov_loop count (drop count (b.before ++ b.cur)) (position % b.base_size) n)

unfoldable pub get_write_buffers : ℕ → M (ℕ × List Iovec)
get_write_buffers len b =
    let c = add_capacity len b in
    if len == 0
    then ok (0, []) b
    else elim (iov_loop (length c.before) c.cur (c.position % c.base_size) len) [
      | none ↦ fault
      | some iovs ↦ ok (len, iovs) c
    ]

-- What the `iovec`s point to, where `before` are the blocks in front of `cur`.
unfoldable pub block_at : List Node → ℕ → Node
block_at [] n = []
block_at (node ∷ rest) zero = node
block_at (node ∷ rest) (suc n) = block_at rest n

unfoldable pub gather : List Node → List Iovec → List ℕ
gather chain [] = []
gather chain (iov ∷ iovs) =
    take iov.iov_len (drop iov.offset (block_at chain iov.block)) ++ gather chain iovs
