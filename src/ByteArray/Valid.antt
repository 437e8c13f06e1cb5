-- ===== src/ByteArray/Valid.antt =====
-- The invariant of a `ByteArray`, and the views in which its methods are specified.
use server_demo.Common.{
  ℕ, ◌+◌, ◌-◌, ◌*◌, ◌%◌, ◌≤◌, ◌<◌, ◌≡◌, refl, ap, ◌∙◌, List, [], ◌∷◌, ◌++◌, flatten, arith, length,
  take, drop, length-append, length-replicate,
}
use server_demo.ByteArray.State.{Node, ByteArray, init, get_capacity}
use server_demo.ByteArray.Buffer.{add_capacity, root_only, clear}
use server_demo.ByteArray.Blocks.{Blocks, Blocks-append, length-flatten}
use server_demo.ByteArray.Cursor.{At, memory}

pub record IsValid (b : ByteArray) : Type 0 where
  pub base_pos : 0 < b.base_size
  pub cursor : At b.base_size b.position b.before b.cur
  pub capacity_eq : b.capacity ≡ b.base_size * (length b.before + length b.cur)
  pub chain_pos : 0 < length b.before + length b.cur
  pub position_le : b.position ≤ b.size
  pub size_le : b.size ≤ b.capacity

-- The blocks as one flat memory.
abbrev pub contents : ByteArray → List ℕ
contents b = memory b.before b.cur

-- The bytes from `m_position` up to `m_size`.
abbrev pub unread : ByteArray → List ℕ
unread b = take (b.size - b.position) (drop b.position (contents b))

-- After `addCapacity(n)` there is room for `n` bytes behind `m_position`.
abbrev pub Room : ByteArray → ℕ → Type 0
Room b n = n ≤ get_capacity (add_capacity n b)

pub length-contents : (b : ByteArray) → IsValid b → length (contents b) ≡ b.capacity
length-contents b v = omega (
  arith,
  length-append (flatten b.before) (flatten b.cur),
  length-flatten b.base_size b.before v.cursor.blocks_before,
  length-flatten b.base_size b.cur v.cursor.blocks_cur,
  v.capacity_eq,
)

pub mod_offset : (base k r : ℕ) → r < base → (base * k + r) % base ≡ r
mod_offset base k r h = grind arith

-- The offset in the cursor's block.
pub offset_eq :
    (b : ByteArray)
    → IsValid b
    → b.position % b.base_size ≡ b.position - b.base_size * length b.before
offset_eq b v =
    let k = length b.before in
    let e : b.position ≡ b.base_size * k + (b.position - b.base_size * k) = v_omega b v in
    ap (λ (p : ℕ). p % b.base_size) e ∙ mod_offset b.base_size k _ (omega (arith, v.cursor.to))
  where
    v_omega :
        (b : ByteArray)
        → IsValid b
        → b.position ≡ b.base_size * length b.before + (b.position - b.base_size * length b.before)
    v_omega b v = omega (arith, v.cursor.from)

-- A new `ByteArray` over blocks of at least one byte is well formed.
pub init-IsValid : (base_size fresh : ℕ) → 0 < base_size → IsValid (init base_size fresh)
unfolding init
init-IsValid base_size fresh h = record {
  base_pos = h;
  cursor = record {
    blocks_before = tt;
    blocks_cur = (length-replicate base_size fresh, tt);
    from = omega arith;
    to = omega arith;
  };
  capacity_eq = omega arith;
  chain_pos = omega arith;
  position_le = omega arith;
  size_le = omega arith;
}

-- `clear` forgets the data and all blocks but the first, whatever the state was.
pub clear-IsValid : (b : ByteArray) → IsValid b → IsValid (clear b)
unfolding clear root_only
clear-IsValid b v =
    root (b.before ++ b.cur)
      (Blocks-append b.base_size b.before b.cur v.cursor.blocks_before v.cursor.blocks_cur)
      (omega (arith, length-append b.before b.cur, v.chain_pos)) refl
  where
    root :
        (xs : List Node)
        → Blocks b.base_size xs
        → 0 < length xs
        → xs ≡ b.before ++ b.cur
        → IsValid (clear b)
    root [] h k e = absurd (omega arith)
    root (x ∷ xs) h k e =
        rw (← e, clear, root_only)
          record {
            base_pos = v.base_pos;
            cursor = record {
              blocks_before = tt;
              blocks_cur = (h.0, tt);
              from = omega arith;
              to = omega (arith, v.base_pos);
            };
            capacity_eq = omega arith;
            chain_pos = omega arith;
            position_le = omega arith;
            size_le = omega arith;
          }
