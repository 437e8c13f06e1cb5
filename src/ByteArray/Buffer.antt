-- ===== src/ByteArray/Buffer.antt =====
-- `addCapacity`, `write`, the two `read`s, `setPosition`, `clear` and `toString` of
-- sylar/bytearray.cc. A loop over the chain is a recursion on the blocks from the cursor on, and
-- comes to `none` where it goes through a null pointer.
use server_demo.Common.{
  ℕ, ◌+◌, ◌-◌, ◌*◌, ◌/◌, ◌%◌, ltb, leb, ◌==◌, if◌then◌else◌, Bool, true, false, Option, none, some,
  List, [], ◌∷◌, ◌++◌, length, take, drop, replicate,
}
use server_demo.ByteArray.State.{
  Node, ByteArray, ok, out_of_range, fault, M, new_node, get_read_size, get_capacity,
}

-- How many blocks `addCapacity` appends for `size` bytes when `old_cap` bytes are left.
unfoldable pub node_count : ℕ → ℕ → ℕ → ℕ
node_count size old_cap base_size =
    let size' = size - old_cap in
    size' / base_size + (if ltb old_cap (size' % base_size) then 1 else 0)

-- The new blocks go behind the last one. Where the old capacity was used up the cursor moves to the
-- first of them; otherwise it stays where it is, a null one too.
unfoldable pub attach : List Node → List Node → List Node → Bool → List Node × List Node
attach before cur nodes true = (before ++ cur, nodes)
attach before [] nodes false = (before ++ nodes, [])
attach before (node ∷ rest) nodes false = (before, node ∷ rest ++ nodes)

unfoldable pub add_capacity : ℕ → ByteArray → ByteArray
add_capacity size b =
    let old_cap = get_capacity b in
    let count = node_count size old_cap b.base_size in
    let chain =
      attach b.before b.cur (replicate count (new_node b.base_size b.fresh)) (old_cap == 0) in
    if size == 0
    then b
    else if leb size old_cap
    then b
    else record b { before = chain.0; cur = chain.1; capacity = b.capacity + count * b.base_size }

-- memcpy(node->ptr + npos, buf, length buf)
unfoldable pub copy_in : Node → ℕ → List ℕ → Node
copy_in node npos buf = take npos node ++ (buf ++ drop (npos + length buf) node)

-- The loop of `write`: the blocks before the cursor and from it on, once `buf` is copied.
unfoldable pub write_loop : List Node → List Node → ℕ → List ℕ → Option (List Node × List Node)
write_loop before [] npos buf = none
write_loop before (node ∷ rest) npos buf =
    let ncap = length node - npos in
    let full = copy_in node npos buf in
    let part = copy_in node npos (take ncap buf) in
    let further = write_loop (before ++ (part ∷ [])) rest 0 (drop ncap buf) in
    if leb (length buf) ncap
    then (if length node == npos + length buf
        then some (before ++ (full ∷ []), rest)
        else some (before, full ∷ rest))
    else further

-- `write` from the computation of `npos` on.
unfoldable pub store : List ℕ → M (Unit {0})
store buf b =
    let moved = b.position + length buf in
    elim (write_loop b.before b.cur (b.position % b.base_size) buf) [
      | none ↦ fault
      | some (before, cur) ↦ ok tt (record b {
        before = before;
        cur = cur;
        position = moved;
        size = if ltb b.size moved then moved else b.size;
      })
    ]

unfoldable pub write : List ℕ → M (Unit {0})
write buf b = if length buf == 0 then ok tt b else store buf (add_capacity (length buf) b)

-- The loop of both `read`s: the bytes, and the blocks before the cursor and from it on.
unfoldable pub read_loop : List Node → List Node → ℕ → ℕ → Option (List ℕ × List Node × List Node)
read_loop before [] npos size = none
read_loop before (node ∷ rest) npos size =
    let ncap = length node - npos in
    let further = read_loop (before ++ (node ∷ [])) rest 0 (size - ncap) in
    if size == 0
    then some ([], before, node ∷ rest)
    else if leb size ncap
    then (if length node == npos + size
        then some (take size (drop npos node), before ++ (node ∷ []), rest)
        else some (take size (drop npos node), before, node ∷ rest))
    else elim further [
      | none ↦ none
      | some (bytes, before', cur') ↦ some (take ncap (drop npos node) ++ bytes, before', cur')
    ]

-- read(buf, size)
unfoldable pub read : ℕ → M (List ℕ)
read size b =
    if ltb (get_read_size b) size
    then out_of_range b
    else elim (read_loop b.before b.cur (b.position % b.base_size) size) [
      | none ↦ fault
      | some (bytes, before, cur) ↦
          ok bytes (record b { before = before; cur = cur; position = b.position + size })
    ]

-- read(buf, size, position) const: the offset comes from `position`, the block from `m_cur`.
unfoldable pub read_at : ℕ → ℕ → M (List ℕ)
read_at size position b =
    if ltb (get_read_size b) size
    then out_of_range b
    else elim (read_loop b.before b.cur (position % b.base_size) size) [
      | none ↦ fault
      | some (bytes, before, cur) ↦ ok bytes b
    ]

-- The loop of `setPosition`: from `m_root` on, past each block that `v` lies behind.
unfoldable pub seek : List Node → List Node → ℕ → Option (List Node × List Node)
seek before [] v = none
seek before (node ∷ rest) v =
    let further = seek (before ++ (node ∷ [])) rest (v - length node) in
    if ltb (length node) v
    then further
    else (if v == length node
        then some (before ++ (node ∷ []), rest)
        else some (before, node ∷ rest))

unfoldable pub set_position : ℕ → M (Unit {0})
set_position v b =
    if ltb b.capacity v then out_of_range b else elim (seek [] (b.before ++ b.cur) v) [
      | none ↦ fault
      | some (before, cur) ↦ ok tt (record b {
        position = v;
        size = if ltb b.size v then v else b.size;
        before = before;
        cur = cur;
      })
    ]

-- Only the root block is kept. The constructor makes one, so the chain is never empty.
unfoldable pub root_only : List Node → List Node
root_only [] = []
root_only (root ∷ rest) = root ∷ []

unfoldable pub clear : ByteArray → ByteArray
clear b = record b {
  position = 0;
  size = 0;
  capacity = b.base_size;
  before = [];
  cur = root_only (b.before ++ b.cur);
}

-- toString() const
unfoldable pub to_string : M (List ℕ)
to_string b = if get_read_size b == 0 then ok [] b else read_at (get_read_size b) b.position b
