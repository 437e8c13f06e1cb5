-- ===== src/ByteArray/Capacity.antt =====
-- `addCapacity`: what it keeps, and for which sizes the room it makes is enough.
use native.Mathlib.Nat.{div-add-mod, mod-lt}
use server_demo.Common.{
  ℕ, ◌+◌, ◌-◌, ◌*◌, ◌/◌, ◌%◌, ◌≤◌, ◌<◌, ◌≡◌, ◌↔◌, ◌⊎◌, inl, inr, refl, sym, ap, List, [], ◌∷◌, ◌++◌,
  flatten, append-nil, append_assoc, arith, length, replicate, length-append, length-replicate,
  le-or-lt, ltb, ◌==◌, if◌then◌else◌, Bool, true, false, lt→ltb, le→ltb_false,
}
use server_demo.ByteArray.State.{Node, ByteArray, new_node, get_capacity}
use server_demo.ByteArray.Buffer.{node_count, attach, add_capacity}
use server_demo.ByteArray.Blocks.{Blocks, Blocks-append, Blocks-replicate, flatten-append}
use server_demo.ByteArray.Cursor.{At, memory}
use server_demo.ByteArray.Valid.{IsValid, contents, Room}

-- What `addCapacity` may change: it puts memory behind the old one.
pub record Extended (b c : ByteArray) : Type 0 where
  pub valid : IsValid c
  pub base_size_eq : c.base_size ≡ b.base_size
  pub position_eq : c.position ≡ b.position
  pub size_eq : c.size ≡ b.size
  pub endian_eq : c.endian ≡ b.endian
  pub filler : List ℕ
  pub contents_eq : contents c ≡ contents b ++ filler

same-Extended : (b : ByteArray) → IsValid b → Extended b b
same-Extended b v = record {
  valid = v;
  base_size_eq = refl;
  position_eq = refl;
  size_eq = refl;
  endian_eq = refl;
  filler = [];
  contents_eq = sym (append-nil (contents b));
}

-- The chain gets `nodes` at its end, and the cursor keeps its place.
abbrev Grown : (base pos : ℕ) (before cur nodes : List Node) → List Node × List Node → Type 0
Grown base pos before cur nodes out =
    At base pos out.0 out.1
    × (length out.0 + length out.1 ≡ length before + length cur + length nodes)
    × (memory out.0 out.1 ≡ memory before cur ++ flatten nodes)

attach_lem :
    (base pos cap : ℕ) (before cur nodes : List Node) (used_up : Bool)
    → At base pos before cur
    → Blocks base nodes
    → pos + cap ≡ base * (length before + length cur)
    → used_up ≡ (cap == 0)
    → Grown base pos before cur nodes (attach before cur nodes used_up)
unfolding attach flatten
attach_lem base pos cap before [] nodes true at blocks e t = simp append-nil (
  record { blocks_before = at.blocks_before; blocks_cur = blocks; from = at.from; to = at.to },
  omega arith,
  refl,
)
attach_lem base pos cap before [] nodes false at blocks e t =
    absurd (used_up→⊥ (omega (arith, at.from)))
  where
    used_up→⊥ : cap ≡ 0 → ⊥
    used_up→⊥ z = ground arith
attach_lem base pos cap before (x ∷ cur) nodes true at blocks e t =
    absurd (omega (arith, at.to, zero_cap))
  where
    zero_cap : cap ≡ 0
    zero_cap = ground arith
attach_lem base pos cap before (x ∷ cur) nodes false at blocks e t = (
  record {
    blocks_before = at.blocks_before;
    blocks_cur = (at.blocks_cur.0, Blocks-append base cur nodes at.blocks_cur.1 blocks);
    from = at.from;
    to = at.to;
  },
  omega (arith, length-append cur nodes),
  rw (flatten-append cur nodes, append_assoc) (rw append_assoc),
)

-- The state after the loop of `addCapacity`.
abbrev grown : ℕ → ByteArray → ByteArray
grown n b =
    let count = node_count n (get_capacity b) b.base_size in
    let chain =
      attach b.before b.cur (replicate count (new_node b.base_size b.fresh))
        (get_capacity b == 0) in
    record b { before = chain.0; cur = chain.1; capacity = b.capacity + count * b.base_size }

add_capacity_enough : (n : ℕ) (b : ByteArray) → n ≤ get_capacity b → add_capacity n b ≡ b
unfolding add_capacity
add_capacity_enough n b h = ground arith

add_capacity_short : (n : ℕ) (b : ByteArray) → get_capacity b < n → add_capacity n b ≡ grown n b
unfolding add_capacity
add_capacity_short n b h = ground arith

grown-Extended : (n : ℕ) (b : ByteArray) → IsValid b → Extended b (grown n b)
unfolding get_capacity
grown-Extended n b v = record {
  valid = record {
    base_pos = v.base_pos;
    cursor = attached.0;
    capacity_eq = omega (
      arith,
      v.capacity_eq,
      ap (λ (l : ℕ). b.base_size * l) attached.1,
      ap (λ (l : ℕ). b.base_size * l) (length-replicate count (new_node b.base_size b.fresh)),
    );
    chain_pos = omega (arith, v.chain_pos, attached.1);
    position_le = v.position_le;
    size_le = omega (arith, v.size_le);
  };
  base_size_eq = refl;
  position_eq = refl;
  size_eq = refl;
  endian_eq = refl;
  filler = flatten (replicate count (new_node b.base_size b.fresh));
  contents_eq = attached.2;
}
  where
    count : ℕ
    count = node_count n (get_capacity b) b.base_size

    attached :
        Grown b.base_size b.position b.before b.cur
          (replicate count (new_node b.base_size b.fresh))
          (attach b.before b.cur
            (replicate count (new_node b.base_size b.fresh))
            (get_capacity b == 0))
    attached =
        attach_lem b.base_size b.position (get_capacity b) b.before b.cur _ _ v.cursor
          (Blocks-replicate b.base_size count b.fresh)
          (omega (arith, v.capacity_eq, v.position_le, v.size_le)) refl

-- `addCapacity` keeps the state well formed, and the data, the cursor and the sizes as they are.
pub add_capacity-Extended : (n : ℕ) (b : ByteArray) → IsValid b → Extended b (add_capacity n b)
add_capacity-Extended n b v = elim (le-or-lt n (get_capacity b)) [
  | inl enough ↦ rw (add_capacity_enough n b enough) (same-Extended b v)
  | inr short ↦ rw (add_capacity_short n b short) (grown-Extended n b v)
]

-- What `addCapacity(size)` has to cover beyond the old capacity leaves nothing, or more than the
-- old capacity, in the last block.
abbrev pub Covered : ByteArray → ℕ → Type 0
Covered b n =
    (n ≤ get_capacity b)
    ⊎ ((n - get_capacity b) % b.base_size ≡ 0)
    ⊎ (get_capacity b < (n - get_capacity b) % b.base_size)

blocks_enough :
    (left d base : ℕ)
    → 0 < base
    → (d ≤ (d / base + (if ltb left (d % base) then 1 else 0)) * base)
      ↔ ((d % base ≡ 0) ⊎ (left < d % base))
blocks_enough left d base h = elim (le-or-lt (d % base) left) [
  | inl small ↦
      rw (le→ltb_false left (d % base) small)
        ((λ e. inl (omega (arith, div-add-mod d base))), enough small)
  | inr large ↦
      rw (lt→ltb left (d % base) large)
        ((λ e. inr large), (λ c. omega (arith, div-add-mod d base, mod-lt d h)))
]
  where
    enough : d % base ≤ left → (d % base ≡ 0) ⊎ (left < d % base) → d ≤ (d / base + 0) * base
    enough small c = omega (arith, div-add-mod d base)

-- For a well-formed buffer `addCapacity(n)` leaves room for `n` bytes exactly if they fitted
-- before, or what was missing is a multiple of the block size, or what was missing leaves a
-- remainder by the block size that exceeds the old capacity.
pub Room-iff : (b : ByteArray) (n : ℕ) → IsValid b → Room b n ↔ Covered b n
unfolding get_capacity node_count
Room-iff b n v = elim (le-or-lt n (get_capacity b)) [
  | inl enough ↦ ((λ r. inl enough), (λ c. rw (add_capacity_enough n b enough) enough))
  | inr short ↦
      let counted = blocks_enough (get_capacity b) (n - get_capacity b) b.base_size v.base_pos in
      (
        (λ r. inr (
            counted.0 (
              omega (
                arith,
                r,
                ap get_capacity (add_capacity_short n b short),
                v.position_le,
                v.size_le,
              )))),
        (λ c.
            rw (add_capacity_short n b short)
              (omega (arith, short, v.position_le, v.size_le, counted.1 (last_block short c)))),
      )
]
  where
    last_block :
        get_capacity b < n
        → Covered b n
        → ((n - get_capacity b) % b.base_size ≡ 0)
          ⊎ (get_capacity b < (n - get_capacity b) % b.base_size)
    last_block short (inl enough) = absurd (omega arith)
    last_block short (inr c) = c
