-- ===== src/ByteArray/WriteLoop.antt =====
-- The loop of `write` against the flat memory.
use server_demo.Common.{
  ℕ, ◌+◌, ◌-◌, ◌*◌, ◌≤◌, ◌<◌, ◌≡◌, refl, ap, sym, ◌∙◌, inl, inr, le-or-lt, eq-or-ne, some, List, [],
  ◌∷◌, ◌++◌, flatten, append_assoc, arith, length, take, drop, length-append, length-take,
  length-drop,
}
use server_demo.ByteArray.State.{Node}
use server_demo.ByteArray.Buffer.{copy_in, write_loop}
use server_demo.ByteArray.Blocks.{
  Blocks, Blocks-append, flatten-snoc, copy_in-append_left, copy_in-append_split, length-copy_in,
}
use server_demo.ByteArray.Cursor.{At, memory, snoc-At}

module _ (base : ℕ) (base_pos : 0 < base) where
  -- What the loop of `write` comes to.
  abbrev pub Written : List Node → List Node → ℕ → ℕ → List ℕ → Type 0
  Written before cur npos pos buf =
      (out : List Node × List Node) × (write_loop before cur npos buf ≡ some out)
      × At base pos out.0 out.1
      × (length out.0 + length out.1 ≡ length before + length cur)
      × (memory out.0 out.1 ≡ flatten before ++ copy_in (flatten cur) npos buf)

  -- The round that fits.
  write_fits :
      (before rest : List Node) (node : Node) (npos pos : ℕ) (buf : List ℕ)
      → Blocks base before
      → Blocks base (node ∷ rest)
      → npos < base
      → length buf ≤ length node - npos
      → pos ≡ base * length before + npos + length buf
      → Written before (node ∷ rest) npos pos buf
  unfolding write_loop flatten
  write_fits before rest node npos pos buf h k lt fits e =
      elim (eq-or-ne (length node) (npos + length buf)) [
        | inl full ↦ (
          (before ++ (copy_in node npos buf ∷ []), rest),
          ground arith,
          snoc-At base before rest _ pos h size k.1 (omega arith) base_pos,
          omega (arith, length-append before (copy_in node npos buf ∷ [])),
          rw (flatten-snoc before _, append_assoc (flatten before)) inside,
        )
        | inr part ↦ (
          (before, copy_in node npos buf ∷ rest),
          ground arith,
          record {
            blocks_before = h;
            blocks_cur = (size, k.1);
            from = omega arith;
            to = omega arith;
          },
          refl,
          inside,
        )
      ]
    where
      size : length (copy_in node npos buf) ≡ base
      size = length-copy_in npos buf node (omega arith) ∙ k.0

      inside :
          flatten before ++ (copy_in node npos buf ++ flatten rest)
          ≡ flatten before ++ copy_in (node ++ flatten rest) npos buf
      inside =
          ap (◌++◌ (flatten before))
            (sym (copy_in-append_left npos buf node (flatten rest) (omega arith)))

  -- The round that fills a block and goes on.
  write_further :
      (before rest : List Node) (node : Node) (npos pos : ℕ) (buf : List ℕ)
      → npos ≤ length node
      → length node - npos < length buf
      → Written
          (before ++ (copy_in node npos (take (length node - npos) buf) ∷ []))
          rest
          0
          pos
          (drop (length node - npos) buf)
      → Written before (node ∷ rest) npos pos buf
  unfolding write_loop flatten
  write_further before rest node npos pos buf le over (out, run, at, count, copied) = (
    out,
    ground arith,
    at,
    omega (arith, length-append before (copy_in node npos (take (length node - npos) buf) ∷ [])),
    copied
        ∙ rw (flatten-snoc before _, append_assoc (flatten before))
            (ap (◌++◌ (flatten before))
              (sym (copy_in-append_split npos buf node (flatten rest) le (omega arith)))),
  )

  pub write_loop_lem :
      (before cur : List Node) (npos pos : ℕ) (buf : List ℕ)
      → Blocks base before
      → Blocks base cur
      → npos < base
      → 0 < length buf
      → npos + length buf ≤ base * length cur
      → pos ≡ base * length before + npos + length buf
      → Written before cur npos pos buf
  write_loop_lem before [] npos pos buf h k lt nonempty room e = absurd (omega arith)
  write_loop_lem before (node ∷ rest) npos pos buf h k lt nonempty room e =
      let ncap = length node - npos in
      let part = copy_in node npos (take ncap buf) in
      elim (le-or-lt (length buf) ncap) [
        | inl fits ↦ write_fits before rest node npos pos buf h k lt fits e
        | inr over ↦ write_further before rest node npos pos buf (omega arith) over (
            write_loop_lem (before ++ (part ∷ [])) rest 0 pos (drop ncap buf)
              (Blocks-append base before (part ∷ []) h (
                length-copy_in npos (take ncap buf) node (omega (arith, length-take ncap buf))
                    ∙ k.0,
                tt,
              ))
              k.1 base_pos (omega (arith, length-drop ncap buf))
              (omega (arith, length-drop ncap buf))
              (omega (
                arith,
                length-drop ncap buf,
                ap (λ (n : ℕ). base * n) (length-append before (part ∷ [])),
              )))
      ]
