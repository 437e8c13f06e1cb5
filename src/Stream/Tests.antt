-- ===== src/Stream/Tests.antt =====
-- A stream that gives its bytes by twos, a sink that takes them by twos, and a closed socket.
use server_demo.Common.{
  ℕ, zero, suc, ◌+◌, leb, if◌then◌else◌, ◌^◌, ◌≡◌, refl, true, false, none, some, List, [], ◌∷◌,
  length, arith, min,
}
use server_demo.Common.Int.{ℤ, pos, negsuc}
use server_demo.Stream.FixSize.{Stream, read_fix_size, write_fix_size, fix_size, fix_loop}
use server_demo.Stream.Socket.{Socket, SocketStream, stream}
use server_demo.Stream.Progress.{ReadsOn, WritesOn, Filled, read_fix_size-Filled}
use server_demo.Stream.Failure.{write_fix_size-disconnected}

-- It counts the bytes that it has given, or taken.
abbrev give : ℕ → ℕ → ℤ × List ℕ × ℕ
give zero s = (pos 0, [], s)
give (suc zero) s = (pos 1, s ∷ [], s + 1)
give (suc (suc n)) s = (pos 2, s ∷ (s + 1) ∷ [], s + 2)

abbrev twos : Stream ℕ
twos = record {
  read = give;
  write = λ buffer s. (pos (min 2 (length buffer)), s + min 2 (length buffer));
}

read_five :
    read_fix_size twos 5 6 100
    ≡ some (pos 5, (((0, 100 ∷ 101 ∷ []) ∷ (2, 102 ∷ 103 ∷ []) ∷ (4, 104 ∷ []) ∷ []), 105))
unfolding read_fix_size fix_size fix_loop
read_five = refl

twos-ReadsOn : ReadsOn twos
twos-ReadsOn zero s more = absurd (omega arith)
twos-ReadsOn (suc zero) s more = (refl, omega arith, omega arith)
twos-ReadsOn (suc (suc n)) s more = (refl, omega arith, omega arith)

read_fix_size-Filled_example :
    (parts : List (ℕ × List ℕ)) × (s' : ℕ) × (read_fix_size twos 5 6 100
      ≡ some (pos 5, (parts, s')))
    × Filled twos 0 100 parts 5 s'
read_fix_size-Filled_example =
    read_fix_size-Filled twos 5 6 100 twos-ReadsOn (omega arith) (omega arith)

twos-WritesOn : WritesOn twos
twos-WritesOn buffer s more = (min 2 (length buffer), refl, omega arith, omega arith)

abbrev closed : Socket ℕ
closed = record {
  is_connected = λ s. false;
  recv = λ left s. (negsuc 0, [], s);
  send = λ buffer s. (negsuc 0, s);
  close = λ s. s;
}

abbrev on_closed : SocketStream ℕ
on_closed = record { present = true; owner = true; socket = 0 }

write_fix_size-disconnected_example :
    write_fix_size (stream closed) (1 ∷ 2 ∷ []) 2 1000 on_closed
    ≡ (if leb 1002 (2 ^ 64) then none else some (pos 2, on_closed))
write_fix_size-disconnected_example =
    write_fix_size-disconnected closed (1 ∷ 2 ∷ []) 1000 on_closed refl (omega arith) (omega arith)
