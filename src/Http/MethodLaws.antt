-- ===== src/Http/MethodLaws.antt =====
-- The texts of the methods and their numbers lead to each other.
use server_demo.Common.{
  ℕ, zero, suc, ◌+◌, ◌<◌, ◌≡◌, refl, sym, ap, ◌∙◌, subst, Bool, true, false, not, ◌&&◌, ◌||◌, some,
  List, [], ◌∷◌, ◌++◌, map, get_elem?, inl, inr, arith, Bool-cases, length,
}
use server_demo.Http.Bytes.{c_str, same_bytes, starts_with, same_bytes→≡, same_bytes_refl}
use server_demo.Http.Methods.{
  method_map, invalid_method, first_row, string_to_http_method, chars_to_http_method,
  text_or_unknown, http_method_to_string,
}

abbrev Row : Type 0
Row = ℕ × List ℕ

abbrev texts : List Row → List (List ℕ)
texts rows = map (λ (row : Row). row.1) rows

-- The rows are numbered from `k` on.
abbrev Numbered : ℕ → List Row → Type 0
Numbered k [] = Unit {0}
Numbered k ((num, text) ∷ rows) = (num ≡ k) × Numbered (suc k) rows

abbrev clashes : List ℕ → List ℕ → Bool
clashes s t = starts_with s t || starts_with t s

-- No text is the beginning of another one.
abbrev none_clashes : List ℕ → List Row → Bool
none_clashes s [] = true
none_clashes s ((num, text) ∷ rows) = not (clashes s text) && none_clashes s rows

abbrev prefix_free : List Row → Bool
prefix_free [] = true
prefix_free ((num, text) ∷ rows) = none_clashes text rows && prefix_free rows

starts_with-clashes : (s t u : List ℕ) → starts_with s (t ++ u) ≡ true → clashes s t ≡ true
unfolding starts_with
starts_with-clashes [] t u h = refl
starts_with-clashes (c ∷ s) [] u h = ground arith
starts_with-clashes (c ∷ s) (d ∷ t) u h = ground (arith, h, starts_with-clashes s t u)

starts_with_self : (s t : List ℕ) → starts_with s (s ++ t) ≡ true
unfolding starts_with
starts_with_self [] t = refl
starts_with_self (c ∷ s) t = ground (arith, starts_with_self s t)

none_clashes_at :
    (s : List ℕ) (rows : List Row) (i : ℕ) (name : List ℕ)
    → none_clashes s rows ≡ true
    → get_elem? (texts rows) i ≡ some name
    → clashes s name ≡ false
none_clashes_at s [] i name h e = absurd (cc)
none_clashes_at s ((num, text) ∷ rows) zero name h e = ground (arith, h, e)
none_clashes_at s ((num, text) ∷ rows) (suc i) name h e =
    none_clashes_at s rows i name (ground (arith, h)) e

-- A test that accepts one text and none that does not clash with it finds the row of this text.
first_row_at :
    (test : List ℕ → Bool) (k : ℕ) (rows : List Row) (i : ℕ) (name : List ℕ)
    → Numbered k rows
    → prefix_free rows ≡ true
    → get_elem? (texts rows) i ≡ some name
    → test name ≡ true
    → ((text : List ℕ) → test text ≡ true → clashes text name ≡ true)
    → first_row test rows ≡ k + i
unfolding first_row
first_row_at test k [] i name n f e t c = absurd (cc)
first_row_at test k ((num, text) ∷ rows) zero name n f e t c = ground (arith, e, t, n.0)
first_row_at test k ((num, text) ∷ rows) (suc i) name n f e t c =
    let apart : clashes text name ≡ false =
      none_clashes_at text rows i name (ground (arith, f)) e in
    elim (Bool-cases (test text)) [
      | inl hit ↦ absurd (cc (c text hit, apart))
      | inr miss ↦
          ground (arith, miss, first_row_at test (suc k) rows i name n.1 (ground (arith, f)) e t c)
    ]

-- What a row that was found holds.
first_row_found :
    (test : List ℕ → Bool) (k : ℕ) (rows : List Row)
    → Numbered k rows
    → k + length rows ≡ invalid_method
    → first_row test rows < invalid_method
    → (i : ℕ) × (name : List ℕ) × (first_row test rows ≡ k + i)
      × (get_elem? (texts rows) i ≡ some name)
      × (test name ≡ true)
unfolding first_row
first_row_found test k [] n l h = absurd (omega arith)
first_row_found test k ((num, text) ∷ rows) n l h = elim (Bool-cases (test text)) [
  | inl hit ↦ (0, text, ground (arith, hit, n.0), refl, hit)
  | inr miss ↦
      let (i, name, at, there, accepted) =
        first_row_found test (suc k) rows n.1 (omega (arith, l)) (ground (arith, miss, h)) in
      (suc i, name, ground (arith, miss, at), there, accepted)
]

method_map-Numbered : Numbered 0 method_map
method_map-Numbered = omega arith

method_map-prefix_free : prefix_free method_map ≡ true
unfolding starts_with
method_map-prefix_free = refl

same_bytes-clashes : (s t : List ℕ) → same_bytes s t ≡ true → clashes s t ≡ true
same_bytes-clashes s t h =
    let itself : starts_with t (t ++ []) ≡ true = starts_with_self t [] in
    subst (λ u. clashes u t ≡ true) (sym (same_bytes→≡ s t h)) (starts_with-clashes t t [] itself)

-- A method name is a text of the table.
pub IsName : ℕ → List ℕ → Type 0
IsName m name = get_elem? (texts method_map) m ≡ some name

to_string_lem : (m : ℕ) (name : List ℕ) → IsName m name → http_method_to_string m ≡ name
unfolding http_method_to_string IsName
to_string_lem m name e = ap text_or_unknown e

name_of :
    (m : ℕ) (rows : List Row)
    → m < length rows
    → (name : List ℕ) × (get_elem? (texts rows) m ≡ some name)
name_of m [] h = absurd (omega arith)
name_of zero ((num, text) ∷ rows) h = (text, refl)
name_of (suc m) ((num, text) ∷ rows) h = name_of m rows (omega (arith, h))

zero_add : (n : ℕ) → 0 + n ≡ n
zero_add n = omega arith

-- No text holds a zero byte.
abbrev printable : List Row → Bool
printable [] = true
printable ((num, text) ∷ rows) = same_bytes (c_str text) text && printable rows

printable_at :
    (rows : List Row) (m : ℕ) (name : List ℕ)
    → printable rows ≡ true
    → get_elem? (texts rows) m ≡ some name
    → same_bytes (c_str name) name ≡ true
printable_at [] m name h e = absurd (cc)
printable_at ((num, text) ∷ rows) zero name h e = ground (arith, h, e)
printable_at ((num, text) ∷ rows) (suc m) name h e = printable_at rows m name (ground (arith, h)) e

method_map-printable : printable method_map ≡ true
unfolding same_bytes c_str
method_map-printable = refl

-- If `StringToHttpMethod` finds a method for a string, `HttpMethodToString` of this method is the
-- string up to its first zero byte.
pub http_method_to_string-string_to_http_method :
    (s : List ℕ)
    → string_to_http_method s < invalid_method
    → http_method_to_string (string_to_http_method s) ≡ c_str s
unfolding string_to_http_method IsName
http_method_to_string-string_to_http_method s h =
    let test = λ (text : List ℕ). same_bytes text (c_str s) in
    let (i, name, at, there, accepted) =
      first_row_found test 0 method_map method_map-Numbered refl h in
    ap http_method_to_string (at ∙ zero_add i)
    ∙ to_string_lem i name there
    ∙ same_bytes→≡ name (c_str s) accepted

-- For each method the text of `HttpMethodToString` leads back to it by `StringToHttpMethod`, and
-- by `CharsToHttpMethod` with any bytes behind it.
pub string_to_http_method-http_method_to_string :
    (m : ℕ) (rest : List ℕ)
    → m < invalid_method
    → (string_to_http_method (http_method_to_string m) ≡ m)
      × (chars_to_http_method (http_method_to_string m ++ rest) ≡ m)
unfolding string_to_http_method chars_to_http_method IsName
string_to_http_method-http_method_to_string m rest h =
    let (name, there) = name_of m method_map h in
    let whole : c_str name ≡ name =
      same_bytes→≡ (c_str name) name (printable_at method_map m name method_map-printable there) in
    rw (to_string_lem m name there, whole)
      (
        first_row_at (λ text. same_bytes text name) 0 method_map m name method_map-Numbered
              method_map-prefix_free there (same_bytes_refl name)
              (λ text. same_bytes-clashes text name)
            ∙ zero_add m,
        first_row_at (λ text. starts_with text (name ++ rest)) 0 method_map m name
              method_map-Numbered method_map-prefix_free there (starts_with_self name rest)
              (λ text. starts_with-clashes text name rest)
            ∙ zero_add m,
      )
