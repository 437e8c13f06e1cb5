-- ===== src/ByteArray/ReadLoop.antt =====
-- The loops of `read` and `setPosition` against the flat memory.
use server_demo.Common.{
  ℕ, ◌+◌, ◌-◌, ◌*◌, ◌≤◌, ◌<◌, ◌≡◌, refl, ap, sym, ◌∙◌, inl, inr, le-or-lt, eq-or-ne, some, List, [],
  ◌∷◌, ◌++◌, flatten, append_assoc, arith, length, take, drop, length-append, length-drop,
  take-append_left, take-append_right, drop-append_left, take_all,
}
use server_demo.ByteArray.State.{Node}
use server_demo.ByteArray.Buffer.{read_loop, seek}
use server_demo.ByteArray.Blocks.{Blocks, Blocks-append}
use server_demo.ByteArray.Cursor.{At, some_block, snoc-At}

module _ (base : ℕ) (base_pos : 0 < base) where
  -- What the loop of `read` comes to: the chain is left alone.
  abbrev pub Scanned : List Node → List Node → ℕ → ℕ → ℕ → Type 0
  Scanned before cur npos pos n =
      (out : List ℕ × List Node × List Node) × (read_loop before cur npos n ≡ some out)
      × At base pos out.1 out.2
      × (out.1 ++ out.2 ≡ before ++ cur)
      × (out.0 ≡ take n (drop npos (flatten cur)))

  read_fits :
      (before rest : List Node) (node : Node) (npos pos n : ℕ)
      → Blocks base before
      → Blocks base (node ∷ rest)
      → npos < base
      → n ≤ length node - npos
      → pos ≡ base * length before + npos + n
      → Scanned before (node ∷ rest) npos pos n
  unfolding read_loop flatten
  read_fits before rest node npos pos n h k lt fits e = elim (eq-or-ne n 0) [
    | inl none_left ↦ (
      ([], before, node ∷ rest),
      ground arith,
      record { blocks_before = h; blocks_cur = k; from = omega arith; to = omega arith },
      refl,
      rw none_left,
    )
    | inr some_left ↦ elim (eq-or-ne (length node) (npos + n)) [
      | inl full ↦ (
        (take n (drop npos node), before ++ (node ∷ []), rest),
        ground arith,
        snoc-At base before rest node pos h k.0 k.1 (omega arith) base_pos,
        append_assoc before (node ∷ []) rest,
        inside,
      )
      | inr part ↦ (
        (take n (drop npos node), before, node ∷ rest),
        ground arith,
        record { blocks_before = h; blocks_cur = k; from = omega arith; to = omega arith },
        refl,
        inside,
      )
    ]
  ]
    where
      inside : take n (drop npos node) ≡ take n (drop npos (node ++ flatten rest))
      inside = rw (drop-append_left npos node (flatten rest) (omega arith)) (
          sym (
            take-append_left n (drop npos node) (flatten rest)
              (omega (arith, length-drop npos node))))

  read_further :
      (before rest : List Node) (node : Node) (npos pos n : ℕ)
      → npos ≤ length node
      → length node - npos < n
      → Scanned (before ++ (node ∷ [])) rest 0 pos (n - (length node - npos))
      → Scanned before (node ∷ rest) npos pos n
  unfolding read_loop flatten
  read_further before rest node npos pos n le over ((bytes, before', cur'), run, at, same, copied) =
      (
        (take ncap (drop npos node) ++ bytes, before', cur'),
        ground arith,
        at,
        same ∙ append_assoc before (node ∷ []) rest,
        rw (take_all ncap (drop npos node) (omega (arith, length-drop npos node)), copied)
            (sym (
              rw (drop-append_left npos node (flatten rest) le) (
                take-append_right n (n - ncap) (drop npos node) (flatten rest)
                  (omega (arith, length-drop npos node))))),
      )
    where
      ncap : ℕ
      ncap = length node - npos

  pub read_loop_lem :
      (before cur : List Node) (npos pos n : ℕ)
      → Blocks base before
      → Blocks base cur
      → npos < base
      → 0 < length cur
      → npos + n ≤ base * length cur
      → pos ≡ base * length before + npos + n
      → Scanned before cur npos pos n
  read_loop_lem before [] npos pos n h k lt nonempty room e = absurd (omega arith)
  read_loop_lem before (node ∷ rest) npos pos n h k lt nonempty room e =
      let ncap = length node - npos in
      elim (le-or-lt n ncap) [
        | inl fits ↦ read_fits before rest node npos pos n h k lt fits e
        | inr over ↦ read_further before rest node npos pos n (omega arith) over (
            read_loop_lem (before ++ (node ∷ [])) rest 0 pos (n - ncap)
              (Blocks-append base before (node ∷ []) h (k.0, tt)) k.1 base_pos
              (some_block base rest (omega arith)) (omega arith)
              (omega (arith, ap (λ (l : ℕ). base * l) (length-append before (node ∷ [])))))
      ]

  -- What the loop of `setPosition` comes to.
  abbrev pub Sought : List Node → List Node → ℕ → ℕ → Type 0
  Sought before cur pos v =
      (out : List Node × List Node) × (seek before cur v ≡ some out)
      × At base pos out.0 out.1
      × (out.0 ++ out.1 ≡ before ++ cur)

  pub seek_lem :
      (before cur : List Node) (pos v : ℕ)
      → Blocks base before
      → Blocks base cur
      → 0 < length cur
      → v ≤ base * length cur
      → pos ≡ base * length before + v
      → Sought before cur pos v
  unfolding seek
  seek_lem before [] pos v h k nonempty room e = absurd (omega arith)
  seek_lem before (node ∷ rest) pos v h k nonempty room e = elim (le-or-lt v (length node)) [
    | inl here ↦ elim (eq-or-ne v (length node)) [
      | inl end ↦ (
        (before ++ (node ∷ []), rest),
        ground arith,
        snoc-At base before rest node pos h k.0 k.1 (omega arith) base_pos,
        append_assoc before (node ∷ []) rest,
      )
      | inr inner ↦ (
        (before, node ∷ rest),
        ground arith,
        record { blocks_before = h; blocks_cur = k; from = omega arith; to = omega arith },
        refl,
      )
    ]
    | inr behind ↦
        seek_further
          (seek_lem (before ++ (node ∷ [])) rest pos (v - length node)
            (Blocks-append base before (node ∷ []) h (k.0, tt)) k.1
            (some_block base rest (omega arith)) (omega arith)
            (omega (arith, ap (λ (l : ℕ). base * l) (length-append before (node ∷ [])))))
          behind
  ]
    where
      seek_further :
          Sought (before ++ (node ∷ [])) rest pos (v - length node)
          → length node < v
          → Sought before (node ∷ rest) pos v
      seek_further (out, run, at, same) behind =
          (out, ground arith, at, same ∙ append_assoc before (node ∷ []) rest)
