-- ===== src/Http/Headers.antt =====
-- `MapType` of sylar/http/http.h, a std::map ordered by `CaseInsensitiveLess`, and the accessors of
-- `HttpRequest` and `HttpResponse` on their headers, parameters and cookies.
use server_demo.Common.{
  ℕ, Bool, true, false, not, ◌&&◌, Option, none, some, List, [], ◌∷◌, if◌then◌else◌,
}
use server_demo.Http.Bytes.{case_insensitive_less}

-- The entries in their order.
abbrev pub MapType : Type 0
MapType = List (List ℕ × List ℕ)

unfoldable pub equivalent : List ℕ → List ℕ → Bool
equivalent k x = not (case_insensitive_less k x) && not (case_insensitive_less x k)

-- std::map::find
unfoldable pub find : List ℕ → MapType → Option (List ℕ)
find key [] = none
find key ((k, v) ∷ m) = if equivalent key k then some v else find key m

-- getHeader, getParam, getCookie
unfoldable pub get_header : List ℕ → List ℕ → MapType → List ℕ
get_header key def m = elim (find key m) [ none ↦ def | some v ↦ v ]

-- setHeader, setParam, setCookie: `m[key] = val` keeps the spelling of a key that is there.
unfoldable pub set_header : List ℕ → List ℕ → MapType → MapType
set_header key val [] = (key, val) ∷ []
set_header key val ((k, v) ∷ m) =
    if case_insensitive_less key k
    then (key, val) ∷ (k, v) ∷ m
    else if case_insensitive_less k key
    then (k, v) ∷ set_header key val m
    else (k, val) ∷ m

-- delHeader, delParam, delCookie
unfoldable pub del_header : List ℕ → MapType → MapType
del_header key [] = []
del_header key ((k, v) ∷ m) = if equivalent key k then m else (k, v) ∷ del_header key m

-- hasHeader, hasParam, hasCookie with a `val` that holds `before`: the result and what `val` holds.
unfoldable pub has_header : List ℕ → List ℕ → MapType → Bool × List ℕ
has_header key before m = elim (find key m) [ none ↦ (false, before) | some v ↦ (true, v) ]

-- checkGetAs and getAs, where `cast` is boost::lexical_cast, `none` if it throws.
module _ {ℓ} {T : Type ℓ} (cast : List ℕ → Option T) where
  unfoldable pub check_get_as : List ℕ → T → MapType → Bool × T
  check_get_as key def m = elim (find key m) [
    | none ↦ (false, def)
    | some text ↦ elim (cast text) [ none ↦ (false, def) | some v ↦ (true, v) ]
  ]

  unfoldable pub get_as : List ℕ → T → MapType → T
  get_as key def m = elim (find key m) [
    | none ↦ def
    | some text ↦ elim (cast text) [ none ↦ def | some v ↦ v ]
  ]
