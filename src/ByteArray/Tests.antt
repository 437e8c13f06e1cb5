-- ===== src/ByteArray/Tests.antt =====
-- Runs of the `ByteArray` model on small buffers, and its theorems at concrete inputs.
use server_demo.Common.{ℕ, ◌≡◌, refl, ap, subst, ◌↔◌, List, [], ◌∷◌, flatten, arith, length}
use server_demo.Common.Int.{negsuc}
use server_demo.ByteArray.State.{
  ByteArray, Outcome, little, big, ok, out_of_range, fault, init, get_read_size, get_capacity,
}
use server_demo.ByteArray.Buffer.{
  node_count, attach, add_capacity, copy_in, write_loop, store, write, read_loop, read, seek,
  set_position,
}
use server_demo.ByteArray.Valid.{IsValid, Room, init-IsValid}
use server_demo.ByteArray.Capacity.{Covered, Room-iff}
use server_demo.ByteArray.Access.{Wrote, write-Wrote}
use server_demo.ByteArray.Seek.{write_fault}
use server_demo.ByteArray.Stream.{Took, read-Took}
use server_demo.ByteArray.Words.{tmp_bytes, encode_zigzag, byteswap, memory_of, to_le, from_le}
use server_demo.ByteArray.Codec.{
  write_fixed, read_fixed, write_uint32, read_uint32, write_uint64, write_varint, write_string_vint,
  read_string_vint,
}
use server_demo.ByteArray.RoundTrip.{RoundTrip}
use server_demo.ByteArray.Fixed.{read_fixed-write_fixed}
use server_demo.ByteArray.Integers.{VarintRoom, read_uint32-write_uint32}
use server_demo.ByteArray.Strings.{read_string_vint-write_string_vint}

-- An empty buffer over blocks of two bytes, and one over blocks of a hundred.
abbrev small : ByteArray
unfolding init
small = init 2 0

abbrev large : ByteArray
unfolding init
large = init 100 0

small-IsValid : IsValid small
unfolding init
small-IsValid = init-IsValid 2 0 (omega arith)

large-IsValid : IsValid large
unfolding init
large-IsValid = init-IsValid 100 0 (omega arith)

abbrev four : List ℕ
four = 1 ∷ 2 ∷ 3 ∷ 4 ∷ []

-- Four bytes fill a second block.
abbrev filled : ByteArray
filled = record {
  base_size = 2;
  position = 4;
  capacity = 4;
  size = 4;
  endian = big;
  before = (1 ∷ 2 ∷ []) ∷ (3 ∷ 4 ∷ []) ∷ [];
  cur = [];
  fresh = 0;
}

-- The same with the position at 1.
abbrev rewound : ByteArray
rewound = record {
  base_size = 2;
  position = 1;
  capacity = 4;
  size = 4;
  endian = big;
  before = [];
  cur = (1 ∷ 2 ∷ []) ∷ (3 ∷ 4 ∷ []) ∷ [];
  fresh = 0;
}

filled-IsValid : IsValid filled
filled-IsValid = omega arith

rewound-IsValid : IsValid rewound
rewound-IsValid = omega arith

write_four : write four small ≡ ok tt filled
unfolding init write store add_capacity get_capacity node_count attach write_loop copy_in
write_four = refl

-- Five bytes do not fit: the fifth needs a third block, which `addCapacity` does not make.
write_five : write (1 ∷ 2 ∷ 3 ∷ 4 ∷ 5 ∷ []) small ≡ fault
unfolding init write store add_capacity get_capacity node_count attach write_loop copy_in
write_five = refl

rewind : set_position 1 filled ≡ ok tt rewound
unfolding set_position seek
rewind = refl

read_across : (c : ByteArray) × (read 2 rewound ≡ ok (2 ∷ 3 ∷ []) c)
unfolding read get_read_size read_loop
read_across = (_, refl)

write-Wrote_example : (c : ByteArray) × (write four small ≡ ok tt c) × Wrote four small c
unfolding init add_capacity get_capacity node_count attach
write-Wrote_example = write-Wrote four small small-IsValid (omega arith)

Room-iff_example : Room small 5 ↔ Covered small 5
unfolding init
Room-iff_example = Room-iff small 5 small-IsValid

write_fault_example : write (1 ∷ 2 ∷ 3 ∷ 4 ∷ 5 ∷ []) small ≡ fault
unfolding init add_capacity get_capacity node_count attach
write_fault_example = write_fault (1 ∷ 2 ∷ 3 ∷ 4 ∷ 5 ∷ []) small small-IsValid (omega arith)

read-Took_example :
    (c : ByteArray) × (read 2 rewound ≡ ok (2 ∷ 3 ∷ []) c) × Took rewound c (2 ∷ 3 ∷ []) (4 ∷ [])
unfolding flatten
read-Took_example = read-Took (2 ∷ 3 ∷ []) (4 ∷ []) rewound rewound-IsValid refl (omega arith)

read_fixed-write_fixed_example :
    RoundTrip (write_fixed little 4 0xabcd) (read_fixed big 4) 0xabcd large
unfolding init add_capacity get_capacity node_count attach
read_fixed-write_fixed_example =
    read_fixed-write_fixed little big 4 0xabcd large large-IsValid (omega arith) (omega arith)
      (omega arith)

room_300 : VarintRoom large 5 300
unfolding init add_capacity get_capacity node_count attach tmp_bytes
room_300 bytes e = let size : length bytes ≡ 2 = ground arith in rw size (omega arith)

read_uint32-write_uint32_example : RoundTrip (write_uint32 300) read_uint32 300 large
read_uint32-write_uint32_example =
    read_uint32-write_uint32 300 large large-IsValid room_300 (omega arith)

room_minus_five : VarintRoom large 10 (encode_zigzag 64 (negsuc 4))
unfolding init add_capacity get_capacity node_count attach tmp_bytes encode_zigzag
room_minus_five bytes e = let size : length bytes ≡ 1 = ground arith in rw size (omega arith)

-- The state that a call returns in.
abbrev state_of : Outcome (Unit {0}) → ByteArray
state_of (ok a b) = b
state_of (out_of_range b) = b
state_of fault = large

Room-behind_size :
    (c : ByteArray) → write_fixed little 2 (length four) large ≡ ok tt c → Room c (length four)
unfolding init write_fixed byteswap memory_of to_le from_le write store add_capacity get_capacity
    node_count attach write_loop copy_in
Room-behind_size c e = subst (λ c. Room c 4) (ap state_of e) (omega arith)

room_four : VarintRoom large 10 4
unfolding init add_capacity get_capacity node_count attach tmp_bytes
room_four bytes e = let size : length bytes ≡ 1 = ground arith in rw size (omega arith)

Room-behind_vint :
    (c : ByteArray) → write_uint64 (length four) large ≡ ok tt c → Room c (length four)
unfolding init write_uint64 write_varint tmp_bytes write store add_capacity get_capacity node_count
    attach write_loop copy_in
Room-behind_vint c e = subst (λ c. Room c 4) (ap state_of e) (omega arith)

read_string_vint-write_string_vint_example :
    RoundTrip (write_string_vint four) read_string_vint four large
read_string_vint-write_string_vint_example =
    read_string_vint-write_string_vint four large large-IsValid (omega arith) (omega arith)
      room_four Room-behind_vint
