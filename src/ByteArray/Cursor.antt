-- ===== src/ByteArray/Cursor.antt =====
-- Where the cursor stands in the chain, and the chain as one flat memory.
use server_demo.Common.{
  ℕ, ◌+◌, ◌*◌, ◌≤◌, ◌<◌, ◌≡◌, ap, List, [], ◌∷◌, ◌++◌, flatten, arith, length, length-append,
}
use server_demo.ByteArray.State.{Node}
use server_demo.ByteArray.Blocks.{Blocks, Blocks-append}

-- The cursor stands in or right behind the chain, at the block that holds the flat position `pos`.
pub record At (base pos : ℕ) (before cur : List Node) : Type 0 where
  pub blocks_before : Blocks base before
  pub blocks_cur : Blocks base cur
  pub from : base * length before ≤ pos
  pub to : pos < base * length before + base

abbrev pub memory : List Node → List Node → List ℕ
memory before cur = flatten before ++ flatten cur

pub some_block : (base : ℕ) (rest : List Node) → 0 < base * length rest → 0 < length rest
some_block base [] h = absurd (omega arith)
some_block base (x ∷ rest) h = omega arith

pub snoc-At :
    (base : ℕ) (before cur : List Node) (x : Node) (pos : ℕ)
    → Blocks base before
    → length x ≡ base
    → Blocks base cur
    → pos ≡ base * length before + base
    → 0 < base
    → At base pos (before ++ (x ∷ [])) cur
snoc-At base before cur x pos h hx k e base_pos = record {
  blocks_before = Blocks-append base before (x ∷ []) h (hx, tt);
  blocks_cur = k;
  from = omega (arith, ap (λ (n : ℕ). base * n) (length-append before (x ∷ [])));
  to = omega (arith, ap (λ (n : ℕ). base * n) (length-append before (x ∷ [])));
}
