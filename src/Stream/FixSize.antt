-- ===== src/Stream/FixSize.antt =====
-- Stream::readFixSize and Stream::writeFixSize, over the virtual calls read and write.
use server_demo.Common.{
  ℕ, zero, suc, ◌+◌, ◌-◌, ◌%◌, ◌^◌, Option, none, some, List, [], ◌∷◌, ◌++◌, ◌==◌, ltb, take, drop,
  if◌then◌else◌,
}
use server_demo.Common.Int.{ℤ, to_word, to_int}

-- size_t arithmetic.
abbrev pub add64 : ℕ → ℕ → ℕ
add64 a b = (a + b) % 2 ^ 64

abbrev pub sub64 : ℕ → ℕ → ℕ
sub64 a b = (a + 2 ^ 64 - b) % 2 ^ 64

-- The loop that all four calls have: `step offset left` is the virtual call, whose int is
-- converted to a size_t. What comes back is the int that the size_t is returned as, and the state. `none` is
-- a loop that has not ended after so many rounds.
module _ {ℓ} {S : Type ℓ} (step : ℕ → ℕ → S → ℤ × S) (length : ℕ) where
  unfoldable pub fix_loop : ℕ → ℕ → ℕ → S → Option (ℤ × S)
  fix_loop zero offset left s = none
  fix_loop (suc fuel) offset left s =
      let done = step offset left s in
      let len = to_word 64 done.0 in
      let rest = fix_loop fuel (add64 offset len) (sub64 left len) done.1 in
      if left == 0
      then some (to_int length, s)
      else if ltb len 0
      then some (to_int len, done.1)
      else rest

  unfoldable pub fix_size : ℕ → S → Option (ℤ × S)
  unfolding fix_loop
  fix_size fuel s = fix_loop fuel 0 length s

-- What a stream is for its callers: read gives an int and the bytes that it puts into the buffer,
-- write takes the bytes of the buffer.
pub record Stream {ℓ} (S : Type ℓ) : Type ℓ where
  pub read : ℕ → S → ℤ × List ℕ × S
  pub write : List ℕ → S → ℤ × S

module _ {ℓ} {S : Type ℓ} (t : Stream S) where
  -- readFixSize(buffer, length): what was put into the buffer, each time with its offset.
  abbrev pub read_step : ℕ → ℕ → List (ℕ × List ℕ) × S → ℤ × (List (ℕ × List ℕ) × S)
  read_step offset left (placed, s) =
      let got = t.read left s in (got.0, (placed ++ ((offset, got.1) ∷ []), got.2))

  unfoldable pub read_fix_size : ℕ → ℕ → S → Option (ℤ × (List (ℕ × List ℕ) × S))
  unfolding fix_size
  read_fix_size length fuel s = fix_size read_step length fuel ([], s)

  -- writeFixSize(buffer, length)
  abbrev pub write_step : List ℕ → ℕ → ℕ → S → ℤ × S
  write_step buffer offset left s = t.write (take left (drop offset buffer)) s

  unfoldable pub write_fix_size : List ℕ → ℕ → ℕ → S → Option (ℤ × S)
  unfolding fix_size
  write_fix_size buffer length fuel s = fix_size (write_step buffer) length fuel s

-- The calls on a ByteArray, which keeps its own position.
pub record BufferStream {ℓ} (S : Type ℓ) : Type ℓ where
  pub read_ba : ℕ → S → ℤ × S
  pub write_ba : ℕ → S → ℤ × S

module _ {ℓ} {S : Type ℓ} (t : BufferStream S) where
  unfoldable pub read_fix_size_ba : ℕ → ℕ → S → Option (ℤ × S)
  unfolding fix_size
  read_fix_size_ba length fuel s = fix_size (λ offset left s. t.read_ba left s) length fuel s

  unfoldable pub write_fix_size_ba : ℕ → ℕ → S → Option (ℤ × S)
  unfolding fix_size
  write_fix_size_ba length fuel s = fix_size (λ offset left s. t.write_ba left s) length fuel s
