-- ===== src/ByteArray/Moves.antt =====
-- What a `read` does to a well-formed buffer, and where the cursor comes to stand.
use server_demo.Common.{
  ℕ, ◌+◌, ◌-◌, ◌*◌, ◌≤◌, ◌<◌, max, ◌≡◌, refl, sym, ap, ◌∙◌, List, [], ◌∷◌, ◌++◌, flatten, arith,
  length, take, drop, length-append, drop-append_right, le→ltb_false,
}
use server_demo.ByteArray.State.{Node, ByteArray, ok, get_read_size}
use server_demo.ByteArray.Buffer.{read}
use server_demo.ByteArray.Blocks.{flatten-append, length-flatten}
use server_demo.ByteArray.Cursor.{memory}
use server_demo.ByteArray.ReadLoop.{Scanned, read_loop_lem}
use server_demo.ByteArray.Valid.{IsValid, contents, offset_eq}

-- `b` became `c` by moving the position, and the memory is the same.
pub record Moved (b c : ByteArray) (pos : ℕ) : Type 0 where
  pub valid : IsValid c
  pub position_eq : c.position ≡ pos
  pub size_eq : c.size ≡ max b.size pos
  pub base_size_eq : c.base_size ≡ b.base_size
  pub capacity_eq : c.capacity ≡ b.capacity
  pub endian_eq : c.endian ≡ b.endian
  pub contents_eq : contents c ≡ contents b

pub same_chain :
    (before cur before' cur' : List Node)
    → before' ++ cur' ≡ before ++ cur
    → (memory before' cur' ≡ memory before cur)
      × (length before' + length cur' ≡ length before + length cur)
same_chain before cur before' cur' e = (
  sym (flatten-append before' cur') ∙ ap flatten e ∙ flatten-append before cur,
  omega (arith, length-append before' cur', length-append before cur, ap length e),
)

pub cursor_block : (b : ByteArray) → IsValid b → b.position < b.capacity → 0 < length b.cur
cursor_block b v h = positive b.cur refl
  where
    positive : (xs : List Node) → xs ≡ b.cur → 0 < length b.cur
    positive [] e = absurd (
        omega (
          arith,
          v.capacity_eq,
          v.cursor.from,
          ap length e,
          ap (λ (n : ℕ). b.base_size * n) (ap length e),
          h,
        ))
    positive (x ∷ xs) e = rw (← e) (omega arith)

-- `read` hands out the next bytes and moves the position past them, unless the position stands at
-- the end of all blocks.
pub read-Moved :
    (n : ℕ) (b : ByteArray)
    → IsValid b
    → n ≤ get_read_size b
    → b.position < b.capacity
    → (c : ByteArray) × (read n b ≡ ok (take n (drop b.position (contents b))) c)
      × Moved b c (b.position + n)
unfolding read get_read_size
read-Moved n b v enough inner = finish (
    read_loop_lem b.base_size v.base_pos b.before b.cur npos (b.position + n) n
      v.cursor.blocks_before v.cursor.blocks_cur (omega (arith, v.cursor.to))
      (cursor_block b v inner)
      (omega (arith, enough, v.size_le, v.position_le, v.capacity_eq, v.cursor.from))
      (omega (arith, v.cursor.from)))
  where
    npos : ℕ
    npos = b.position - b.base_size * length b.before

    finish :
        Scanned b.base_size v.base_pos b.before b.cur npos (b.position + n) n
        → (c : ByteArray) × (read n b ≡ ok (take n (drop b.position (contents b))) c)
          × Moved b c (b.position + n)
    finish ((bytes, before', cur'), run, at, same, copied) =
        let chain = same_chain b.before b.cur before' cur' same in
        (
          record b { before = before'; cur = cur'; position = b.position + n },
          rw (le→ltb_false (b.size - b.position) n enough, offset_eq b v, run, copied)
              (rw
                (drop-append_right b.position npos (flatten b.before) (flatten b.cur) (
                  omega (
                    arith,
                    v.cursor.from,
                    length-flatten b.base_size b.before v.cursor.blocks_before,
                  )))
                refl),
          record {
            valid = record {
              base_pos = v.base_pos;
              cursor = at;
              capacity_eq = v.capacity_eq ∙ ap (λ (l : ℕ). b.base_size * l) (sym chain.1);
              chain_pos = omega (arith, v.chain_pos, chain.1);
              position_le = omega (arith, enough, v.position_le);
              size_le = v.size_le;
            };
            position_eq = refl;
            size_eq = omega (arith, enough, v.position_le);
            base_size_eq = refl;
            capacity_eq = refl;
            endian_eq = refl;
            contents_eq = chain.0;
          },
        )
