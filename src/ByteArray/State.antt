-- ===== src/ByteArray/State.antt =====
-- The members of `ByteArray` (sylar/bytearray.h) and what a call of its methods can come to.
use server_demo.Common.{ℕ, ◌-◌, Bool, true, false, List, [], ◌∷◌, replicate}

-- A `Node` is its memory block: `size` is the list's length, `next` is the place in the chain.
abbrev pub Node : Type 0
Node = List ℕ

pub data Endian : Type 0 where
  little big : Endian

-- `m_root` and `m_cur` point into one chain: `before` are the blocks from `m_root` up to `m_cur`,
-- `cur` the blocks from `m_cur` on. `m_cur` is null when `cur` is empty.
-- `fresh` is what the memory of a new block happens to hold.
pub record ByteArray : Type 0 where
  pub base_size : ℕ
  pub position : ℕ
  pub capacity : ℕ
  pub size : ℕ
  pub endian : Endian
  pub before : List Node
  pub cur : List Node
  pub fresh : ℕ

-- A call returns, throws std::out_of_range in some state, or goes through a null `m_cur`.
pub data Outcome {ℓ} (A : Type ℓ) : Type ℓ where
  ok : A → ByteArray → Outcome A
  out_of_range : ByteArray → Outcome A
  fault : Outcome A

abbrev pub M {ℓ} : Type ℓ → Type ℓ
M A = ByteArray → Outcome A

infixl 5 ◌>>=◌ ◌>>◌
abbrev pub after {ℓ κ} : {A : Type ℓ} {B : Type κ} → Outcome A → (A → M B) → Outcome B
after (ok a b) f = f a b
after (out_of_range b) f = out_of_range b
after fault f = fault

abbrev pub ◌>>=◌ {ℓ κ} : {A : Type ℓ} {B : Type κ} → M A → (A → M B) → M B
◌>>=◌ m f b = after (m b) f

abbrev pub ◌>>◌ {ℓ} : {B : Type ℓ} → M (Unit {0}) → M B → M B
m >> k = m >>= λ _. k

abbrev pub return {ℓ} : {A : Type ℓ} → A → M A
return a b = ok a b

-- new Node(s)
abbrev pub new_node : ℕ → ℕ → Node
new_node s fresh = replicate s fresh

-- ByteArray::ByteArray
unfoldable pub init : ℕ → ℕ → ByteArray
init base_size fresh = record {
  base_size = base_size;
  position = 0;
  capacity = base_size;
  size = 0;
  endian = big;
  before = [];
  cur = new_node base_size fresh ∷ [];
  fresh = fresh;
}

unfoldable pub is_little_endian : ByteArray → Bool
is_little_endian b = elim b.endian [ little ↦ true | big ↦ false ]

unfoldable pub set_is_little_endian : Bool → ByteArray → ByteArray
set_is_little_endian val b = record b { endian = elim val [ true ↦ little | false ↦ big ] }

unfoldable pub get_read_size : ByteArray → ℕ
get_read_size b = b.size - b.position

unfoldable pub get_capacity : ByteArray → ℕ
get_capacity b = b.capacity - b.position
