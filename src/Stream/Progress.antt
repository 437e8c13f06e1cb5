-- ===== src/Stream/Progress.antt =====
-- A stream that makes progress with each call fills the buffer, or sends all of it.
use server_demo.Common.{
  ℕ, zero, suc, ◌+◌, ◌-◌, ◌^◌, ◌≤◌, ◌<◌, ◌≡◌, refl, ap, ◌∙◌, false, some, List, [], ◌∷◌, ◌++◌,
  append-nil, append_assoc, ◌==◌, length, take, drop, arith, inl, inr, eq-or-ne, length-drop,
  drop-drop, take_all, drop_all,
}
use server_demo.Common.Int.{ℤ, pos, to_word, to_int}
use server_demo.Stream.FixSize.{
  Stream, fix_loop, read_step, read_fix_size, write_step, write_fix_size, add64, sub64,
}

-- A round of the loop whose call moves `m` bytes.
fix_loop-moves {ℓ} :
    {S : Type ℓ} (step : ℕ → ℕ → S → ℤ × S) (len fuel a left m : ℕ) (s : S)
    → 0 < left
    → a + left < 2 ^ 64
    → m ≤ left
    → (step a left s).0 ≡ pos m
    → fix_loop step len (suc fuel) a left s
      ≡ fix_loop step len fuel (a + m) (left - m) (step a left s).1
unfolding fix_loop
fix_loop-moves step len fuel a left m s more small fits says =
    let word : to_word 64 (step a left s).0 ≡ m = ap (to_word 64) says ∙ omega arith in
    let off : add64 a (to_word 64 (step a left s).0) ≡ a + m = ap (add64 a) word ∙ omega arith in
    let rest : sub64 left (to_word 64 (step a left s).0) ≡ left - m =
      ap (sub64 left) word ∙ omega arith in
    let test : (left == 0) ≡ false = ground arith in rw (test, off, rest) (ground arith)

module _ {ℓ} {S : Type ℓ} (t : Stream S) where
  -- Each call of read with room for a byte gives at least one, no more than asked for, and says so.
  abbrev pub ReadsOn : Type ℓ
  ReadsOn =
      (left : ℕ) (s : S)
      → 0 < left
      → ((t.read left s).0 ≡ pos (length (t.read left s).1))
        × (0 < length (t.read left s).1)
        × (length (t.read left s).1 ≤ left)

  -- The places [a, b) of the buffer are filled by calls of read, each of which asked for all that
  -- was missing and put what it got behind what was there.
  abbrev pub Filled : ℕ → S → List (ℕ × List ℕ) → ℕ → S → Type ℓ
  Filled a s [] b s' = (a ≡ b) × (s ≡ s')
  Filled a s ((o, bytes) ∷ parts) b s' =
      (o ≡ a)
      × (bytes ≡ (t.read (b - a) s).1)
      × Filled (a + length bytes) (t.read (b - a) s).2 parts b s'

  read_loop_lem :
      (len : ℕ) (fuel a left : ℕ) (placed : List (ℕ × List ℕ)) (s : S)
      → ReadsOn
      → len < 2 ^ 64
      → left < fuel
      → a + left ≡ len
      → (parts : List (ℕ × List ℕ)) × (s' : S) × (fix_loop (read_step t) len fuel a left (placed, s)
          ≡ some (to_int len, (placed ++ parts, s')))
        × Filled a s parts len s'
  unfolding fix_loop
  read_loop_lem len zero a left placed s on small enough e = absurd (omega arith)
  read_loop_lem len (suc fuel) a left placed s on small enough e = elim (eq-or-ne left 0) [
    | inl q ↦ ([], s, ground (arith, q, append-nil placed), (omega arith, refl))
    | inr q ↦
        let got = t.read left s in
        let (says, some_byte, fits) = on left s (omega arith) in
        let (parts, s', e', filled) =
          read_loop_lem len fuel (a + length got.1) (left - length got.1)
            (placed ++ ((a, got.1) ∷ [])) got.2 on small (omega arith) (omega arith) in
        let missing : len - a ≡ left = omega arith in
        (
          (a, got.1) ∷ parts,
          s',
          fix_loop-moves (read_step t) len fuel a left (length got.1) (placed, s) (omega arith)
                (omega arith) fits says
              ∙ e'
              ∙ ap (λ ps. some (to_int len, (ps, s')))
                  (append_assoc placed ((a, got.1) ∷ []) parts),
          (refl, rw missing refl, rw missing filled),
        )
  ]

  -- If every call of read gives at least one byte, `readFixSize` returns the int of the length
  -- after at most as many rounds as it is long and one more, and has filled the buffer from the
  -- front to the end, each call asking for exactly what was missing.
  pub read_fix_size-Filled :
      (len fuel : ℕ) (s : S)
      → ReadsOn
      → len < 2 ^ 64
      → len < fuel
      → (parts : List (ℕ × List ℕ)) × (s' : S) × (read_fix_size t len fuel s
          ≡ some (to_int len, (parts, s')))
        × Filled 0 s parts len s'
  unfolding read_fix_size
  read_fix_size-Filled len fuel s on small enough =
      read_loop_lem len fuel 0 len [] s on small enough (omega arith)

  -- Each call of write with a byte to send takes at least one, and says how many.
  abbrev pub WritesOn : Type ℓ
  WritesOn =
      (buffer : List ℕ) (s : S)
      → 0 < length buffer
      → (n : ℕ) × ((t.write buffer s).0 ≡ pos n) × (0 < n) × (n ≤ length buffer)

  -- The bytes are sent by calls of write, each of which was given all that was left.
  abbrev pub Sent : List ℕ → S → List ℕ → S → Type ℓ
  Sent buffer s [] s' = (buffer ≡ []) × (s ≡ s')
  Sent buffer s (n ∷ ns) s' =
      ((t.write buffer s).0 ≡ pos n) × Sent (drop n buffer) (t.write buffer s).1 ns s'

  write_loop_lem :
      (buffer : List ℕ) (fuel a left : ℕ) (s : S)
      → WritesOn
      → length buffer < 2 ^ 64
      → left < fuel
      → a + left ≡ length buffer
      → (ns : List ℕ) × (s' : S) × (fix_loop (write_step t buffer) (length buffer) fuel a left s
          ≡ some (to_int (length buffer), s'))
        × Sent (drop a buffer) s ns s'
  unfolding fix_loop
  write_loop_lem buffer zero a left s on small enough e = absurd (omega arith)
  write_loop_lem buffer (suc fuel) a left s on small enough e = elim (eq-or-ne left 0) [
    | inl q ↦ ([], s, ground (arith, q), (drop_all a buffer (omega arith), refl))
    | inr q ↦
        let size : length (drop a buffer) ≡ left = omega (arith, length-drop {0} a buffer) in
        let all : take left (drop a buffer) ≡ drop a buffer =
          take_all left (drop a buffer) (omega arith) in
        let (n, says, some_byte, fits) = on (drop a buffer) s (omega arith) in
        let (ns, s', e', sent) =
          write_loop_lem buffer fuel (a + n) (left - n) (t.write (drop a buffer) s).1 on small
            (omega arith) (omega arith) in
        (
          n ∷ ns,
          s',
          fix_loop-moves (write_step t buffer) (length buffer) fuel a left n s (omega arith)
                (omega arith) (omega arith) (ap (λ b. (t.write b s).0) all ∙ says)
              ∙ ap
                  (λ b.
                    fix_loop (write_step t buffer) (length buffer) fuel (a + n) (left - n)
                      (t.write b s).1)
                  all
              ∙ e',
          (says, rw (drop-drop n a (a + n) buffer (omega arith)) sent),
        )
  ]

  -- If every call of write takes at least one byte, `writeFixSize` of a buffer returns the int of its length
  -- after at most as many rounds as it is long and one more, and has sent all of it in order,
  -- each call being given exactly what was left.
  pub write_fix_size-Sent :
      (buffer : List ℕ) (fuel : ℕ) (s : S)
      → WritesOn
      → length buffer < 2 ^ 64
      → length buffer < fuel
      → (ns : List ℕ) × (s' : S) × (write_fix_size t buffer (length buffer) fuel s
          ≡ some (to_int (length buffer), s'))
        × Sent buffer s ns s'
  unfolding write_fix_size
  write_fix_size-Sent buffer fuel s on small enough =
      write_loop_lem buffer fuel 0 (length buffer) s on small enough (omega arith)
