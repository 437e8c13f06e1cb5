-- ===== src/Stream/Failure.antt =====
-- A stream that fails, or is at its end: the test `len < 0` on a size_t never holds.
use server_demo.Common.{
  ℕ, zero, suc, ◌+◌, ◌-◌, ◌%◌, ◌^◌, ◌≤◌, ◌<◌, ◌≡◌, refl, ap, ◌∙◌, false, none, some, List, ◌==◌,
  length, arith, if◌then◌else◌, inl, inr, eq-or-ne, le-or-lt, leb, le→leb, lt→leb_false,
}
use server_demo.Common.Int.{ℤ, negsuc, to_int}
use server_demo.Stream.FixSize.{fix_loop, write_step, write_fix_size, add64, sub64}
use server_demo.Stream.Socket.{Socket, SocketStream, connected, write, stream}

-- A call that answers -1 and leaves the state as it is sends the loop on with one byte more to do.
-- So the loop goes on for 2^64 rounds less the length, and then returns the length.
module _ {ℓ} {S : Type ℓ} (step : ℕ → ℕ → S → ℤ × S) (len : ℕ) where
  abbrev pub Fails : S → Type ℓ
  Fails s = (offset left : ℕ) → step offset left s ≡ (negsuc 0, s)

  fix_loop-failing_once :
      (fuel offset left : ℕ) (s : S)
      → Fails s
      → 0 < left
      → left < 2 ^ 64
      → fix_loop step len (suc fuel) offset left s
        ≡ fix_loop step len fuel (add64 offset (2 ^ 64 - 1)) ((left + 1) % 2 ^ 64) s
  unfolding fix_loop
  fix_loop-failing_once fuel offset left s fails more small =
      let test : (left == 0) ≡ false = ground arith in
      let next : sub64 left (2 ^ 64 - 1) ≡ (left + 1) % 2 ^ 64 = omega arith in
      rw (test, fails offset left, next) refl

  pub fix_loop-failing_none :
      (fuel offset left : ℕ) (s : S)
      → Fails s
      → 0 < left
      → left < 2 ^ 64
      → fuel + left ≤ 2 ^ 64
      → fix_loop step len fuel offset left s ≡ none
  unfolding fix_loop
  fix_loop-failing_none zero offset left s fails more small few = refl
  fix_loop-failing_none (suc fuel) offset left s fails more small few =
      elim (eq-or-ne (left + 1) (2 ^ 64)) [
        | inl q ↦
            let e : fuel ≡ 0 = omega arith in
            fix_loop-failing_once fuel offset left s fails more small
            ∙ ap (λ n. fix_loop step len n (add64 offset (2 ^ 64 - 1)) ((left + 1) % 2 ^ 64) s) e
        | inr q ↦
            let e : (left + 1) % 2 ^ 64 ≡ left + 1 = omega arith in
            fix_loop-failing_once fuel offset left s fails more small
            ∙ ap (λ n. fix_loop step len fuel (add64 offset (2 ^ 64 - 1)) n s) e
            ∙ fix_loop-failing_none fuel (add64 offset (2 ^ 64 - 1)) (left + 1) s fails
                (omega arith) (omega arith) (omega arith)
      ]

  pub fix_loop-failing_some :
      (fuel offset left : ℕ) (s : S)
      → Fails s
      → 0 < left
      → left < 2 ^ 64
      → 2 ^ 64 < fuel + left
      → fix_loop step len fuel offset left s ≡ some (to_int len, s)
  unfolding fix_loop
  fix_loop-failing_some zero offset left s fails more small many = absurd (omega arith)
  fix_loop-failing_some (suc fuel) offset left s fails more small many =
      elim (eq-or-ne (left + 1) (2 ^ 64)) [
        | inl q ↦
            let e : (left + 1) % 2 ^ 64 ≡ 0 = omega arith in
            let more_fuel : fuel ≡ suc (fuel - 1) = omega arith in
            fix_loop-failing_once fuel offset left s fails more small
            ∙ ap (λ n. fix_loop step len fuel (add64 offset (2 ^ 64 - 1)) n s) e
            ∙ ap (λ n. fix_loop step len n (add64 offset (2 ^ 64 - 1)) 0 s) more_fuel
        | inr q ↦
            let e : (left + 1) % 2 ^ 64 ≡ left + 1 = omega arith in
            fix_loop-failing_once fuel offset left s fails more small
            ∙ ap (λ n. fix_loop step len fuel (add64 offset (2 ^ 64 - 1)) n s) e
            ∙ fix_loop-failing_some fuel (add64 offset (2 ^ 64 - 1)) (left + 1) s fails
                (omega arith) (omega arith) (omega arith)
      ]

-- On a socket that is not connected `writeFixSize` of a buffer never fails: it goes on for 2^64
-- rounds less the length of the buffer, and then returns the int of the length, though nothing
-- was sent.
pub write_fix_size-disconnected {ℓ} :
    {S : Type ℓ} (k : Socket S) (buffer : List ℕ) (fuel : ℕ) (t : SocketStream S)
    → connected k t ≡ false
    → 0 < length buffer
    → length buffer < 2 ^ 64
    → write_fix_size (stream k) buffer (length buffer) fuel t
      ≡ (if leb (fuel + length buffer) (2 ^ 64) then none else some (to_int (length buffer), t))
unfolding write_fix_size stream write
write_fix_size-disconnected k buffer fuel t off some_byte small =
    let step = write_step (stream k) buffer in
    let fails : Fails step (length buffer) t = λ offset left. rw off refl in
    elim (le-or-lt (fuel + length buffer) (2 ^ 64)) [
      | inl few ↦ rw (le→leb (fuel + length buffer) (2 ^ 64) few) (
          fix_loop-failing_none step (length buffer) fuel 0 (length buffer) t fails some_byte small
            few)
      | inr many ↦ rw (lt→leb_false (fuel + length buffer) (2 ^ 64) many) (
          fix_loop-failing_some step (length buffer) fuel 0 (length buffer) t fails some_byte small
            many)
    ]
