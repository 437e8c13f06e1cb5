-- ===== src/Http/Bytes.antt =====
-- The C strings that sylar/http works on: a std::string is its bytes.
use Prim.Native.String.{String}
use Prim.Native.Char.{code}
use server_demo.Common.{
  ℕ, zero, suc, ◌+◌, ◌/◌, ◌%◌, ◌≡◌, refl, Bool, true, false, ◌&&◌, List, [], ◌∷◌, ◌++◌, map, ltb,
  leb, ◌==◌, if◌then◌else◌, arith,
}

-- The bytes of an ASCII text.
abbrev pub codes : String → List ℕ
codes String.[] = []
codes (String.◌∷◌ c s) = code c ∷ codes s

-- What `c_str()` shows of a string: the bytes before the first zero.
unfoldable pub c_str : List ℕ → List ℕ
c_str [] = []
c_str (c ∷ s) = if c == 0 then [] else c ∷ c_str s

-- strcmp(s, t) == 0, and ==
unfoldable pub same_bytes : List ℕ → List ℕ → Bool
same_bytes [] [] = true
same_bytes [] (d ∷ t) = false
same_bytes (c ∷ s) [] = false
same_bytes (c ∷ s) (d ∷ t) = c == d && same_bytes s t

-- strncmp(s, t, strlen(s)) == 0
unfoldable pub starts_with : List ℕ → List ℕ → Bool
starts_with [] t = true
starts_with (c ∷ s) [] = false
starts_with (c ∷ s) (d ∷ t) = c == d && starts_with s t

abbrev pub to_lower : ℕ → ℕ
to_lower c = if leb 65 c && leb c 90 then c + 32 else c

-- The order of strcmp, on bytes.
unfoldable pub bytes_less : List ℕ → List ℕ → Bool
bytes_less [] [] = false
bytes_less [] (d ∷ t) = true
bytes_less (c ∷ s) [] = false
bytes_less (c ∷ s) (d ∷ t) = if ltb c d then true else if ltb d c then false else bytes_less s t

-- What strcasecmp compares.
unfoldable pub fold : List ℕ → List ℕ
fold s = map to_lower (c_str s)

-- CaseInsensitiveLess
unfoldable pub case_insensitive_less : List ℕ → List ℕ → Bool
case_insensitive_less lhs rhs = bytes_less (fold lhs) (fold rhs)

-- strcasecmp(s, t) == 0
unfoldable pub same_key : List ℕ → List ℕ → Bool
same_key s t = same_bytes (fold s) (fold t)

-- How a stream prints an unsigned number below 2 ^ 64, of at most twenty digits.
unfoldable pub digits : ℕ → ℕ → List ℕ
digits zero n = []
digits (suc fuel) n =
    let front = digits fuel (n / 10) in
    if ltb n 10 then (48 + n) ∷ [] else front ++ ((48 + n % 10) ∷ [])

unfoldable pub decimal : ℕ → List ℕ
decimal n = digits 20 n

pub same_bytes→≡ : (s t : List ℕ) → same_bytes s t ≡ true → s ≡ t
unfolding same_bytes
same_bytes→≡ [] [] h = refl
same_bytes→≡ [] (d ∷ t) h = absurd (cc)
same_bytes→≡ (c ∷ s) [] h = absurd (cc)
same_bytes→≡ (c ∷ s) (d ∷ t) h = ground (arith, h, same_bytes→≡ s t)

pub same_bytes_refl : (s : List ℕ) → same_bytes s s ≡ true
unfolding same_bytes
same_bytes_refl [] = refl
same_bytes_refl (c ∷ s) = ground (arith, same_bytes_refl s)

pub bytes_less_irreflexive : (s : List ℕ) → bytes_less s s ≡ false
unfolding bytes_less
bytes_less_irreflexive [] = refl
bytes_less_irreflexive (c ∷ s) = ground (arith, bytes_less_irreflexive s)

-- Where neither comes first they are the same.
pub bytes_less_total : (s t : List ℕ) → bytes_less s t ≡ false → bytes_less t s ≡ false → s ≡ t
unfolding bytes_less
bytes_less_total [] [] h k = refl
bytes_less_total [] (d ∷ t) h k = absurd (cc)
bytes_less_total (c ∷ s) [] h k = absurd (cc)
bytes_less_total (c ∷ s) (d ∷ t) h k = ground (arith, h, k, bytes_less_total s t)

pub bytes_less_trans :
    (s t u : List ℕ) → bytes_less s t ≡ true → bytes_less t u ≡ true → bytes_less s u ≡ true
unfolding bytes_less
bytes_less_trans [] [] u h k = absurd (cc)
bytes_less_trans [] (d ∷ t) [] h k = absurd (cc)
bytes_less_trans [] (d ∷ t) (e ∷ u) h k = refl
bytes_less_trans (c ∷ s) [] u h k = absurd (cc)
bytes_less_trans (c ∷ s) (d ∷ t) [] h k = absurd (cc)
bytes_less_trans (c ∷ s) (d ∷ t) (e ∷ u) h k = ground (arith, h, k, bytes_less_trans s t u)
