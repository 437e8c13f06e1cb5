-- ===== src/Log/RoundTrip.antt =====
-- A pattern that is written from its pieces is read as these pieces.
use server_demo.Common.{
  ℕ, zero, suc, ◌+◌, ◌<◌, ◌≡◌, refl, sym, ap, ◌∙◌, subst, ◌-◌, Bool, true, false, some, List, [],
  ◌∷◌, ◌++◌, append-nil, append_assoc, map, All, ◌==◌, length, length-append, arith,
}
use server_demo.Log.Pattern.{
  scanned, scan_fmt, scan_name, is_word, Part, plain, named, flush, starts_percent, add_parts,
  read_pattern, Kind, message, level, elapse, name, thread_id, new_line, date_time, filename, line,
  tab, fiber_id, thread_name, key, kinds, find_kind, FormatItem, string_item, new_item, make_items,
  add_item, new_formatter,
}

-- A text, a `%` with a key, or this with a format in braces.
pub data Piece : Type 0 where
  text : List ℕ → Piece
  short : Kind → Piece
  braced : Kind → List ℕ → Piece

unfoldable pub print : List Piece → List ℕ
print [] = []
print (text t ∷ ps) = t ++ print ps
print (short k ∷ ps) = b'%' ∷ key k ∷ print ps
print (braced k fmt ∷ ps) = b'%' ∷ key k ∷ b'{' ∷ (fmt ++ (b'}' ∷ print ps))

abbrev pub starts_word : List ℕ → Bool
starts_word [] = false
starts_word (c ∷ rest) = is_word c

abbrev pub is_nil : List ℕ → Bool
is_nil [] = true
is_nil (c ∷ cs) = false

-- The pieces can be told apart: a text is not empty, has no `%` and does not follow a text, no
-- format has a closing brace, and what follows a key without a format does not go on with a
-- letter or a brace. `fresh` says that there is no text in front.
abbrev pub IsReadable : Bool → List Piece → Type 0
IsReadable fresh [] = Unit {0}
IsReadable fresh (text t ∷ ps) =
    (fresh ≡ true) × (is_nil t ≡ false) × All (λ c. (c == b'%') ≡ false) t × IsReadable false ps
IsReadable fresh (short k ∷ ps) = (starts_word (print ps) ≡ false) × IsReadable true ps
IsReadable fresh (braced k fmt ∷ ps) = All (λ c. (c == b'}') ≡ false) fmt × IsReadable true ps

abbrev pub part_of : Piece → Part
part_of (text t) = plain t
part_of (short k) = named (key k ∷ []) []
part_of (braced k fmt) = named (key k ∷ []) fmt

-- The item that a piece stands for.
abbrev pub item_of : Piece → FormatItem
item_of (text t) = string_item t
item_of (short k) = new_item k []
item_of (braced k fmt) = new_item k fmt

key-test :
    (k : Kind) → (is_word (key k) ≡ true) × ((key k == b'{') ≡ false) × ((key k == b'%') ≡ false)
key-test message = (refl, refl, refl)
key-test level = (refl, refl, refl)
key-test elapse = (refl, refl, refl)
key-test name = (refl, refl, refl)
key-test thread_id = (refl, refl, refl)
key-test new_line = (refl, refl, refl)
key-test date_time = (refl, refl, refl)
key-test filename = (refl, refl, refl)
key-test line = (refl, refl, refl)
key-test tab = (refl, refl, refl)
key-test fiber_id = (refl, refl, refl)
key-test thread_name = (refl, refl, refl)

find_kind-key : (k : Kind) → find_kind kinds (key k ∷ []) ≡ some k
unfolding find_kind
find_kind-key message = refl
find_kind-key level = refl
find_kind-key elapse = refl
find_kind-key name = refl
find_kind-key thread_id = refl
find_kind-key new_line = refl
find_kind-key date_time = refl
find_kind-key filename = refl
find_kind-key line = refl
find_kind-key tab = refl
find_kind-key fiber_id = refl
find_kind-key thread_name = refl

scan_fmt-closed :
    (str acc fmt rest : List ℕ)
    → All (λ c. (c == b'}') ≡ false) fmt
    → scan_fmt str acc (fmt ++ (b'}' ∷ rest)) ≡ scanned str (acc ++ fmt) rest
unfolding scan_fmt
scan_fmt-closed str acc [] rest h = ap (λ f. scanned str f rest) (sym (append-nil acc))
scan_fmt-closed str acc (c ∷ fmt) rest h = rw h.0 (
    scan_fmt-closed str (acc ++ (c ∷ [])) fmt rest h.1
    ∙ ap (λ f. scanned str f rest) (append_assoc acc (c ∷ []) fmt))

scan_name-stop :
    (str rest : List ℕ) → starts_word rest ≡ false → scan_name str rest ≡ scanned str [] rest
unfolding scan_name
scan_name-stop str [] h = refl
scan_name-stop str (c ∷ rest) h = rw h refl

scan_name-key :
    (c : ℕ) (rest : List ℕ)
    → is_word c ≡ true
    → (c == b'{') ≡ false
    → scan_name [] (c ∷ rest) ≡ scan_name (c ∷ []) rest
unfolding scan_name
scan_name-key c rest w b = rw (w, b) refl

scan_name-brace : (str rest : List ℕ) → scan_name str (b'{' ∷ rest) ≡ scan_fmt str [] rest
unfolding scan_name
scan_name-brace str rest = refl

pub read_text :
    (t rest nstr : List ℕ) (n fuel : ℕ)
    → n ≡ length t + fuel
    → All (λ c. (c == b'%') ≡ false) t
    → read_pattern n (t ++ rest) nstr ≡ read_pattern fuel rest (nstr ++ t)
unfolding read_pattern
read_text [] rest nstr n fuel e h = let e' : n ≡ fuel = omega arith in rw (e', append-nil nstr) refl
read_text (c ∷ t) rest nstr zero fuel e h = absurd (omega arith)
read_text (c ∷ t) rest nstr (suc n) fuel e h = rw h.0 (
    read_text t rest (nstr ++ (c ∷ [])) n fuel (omega arith) h.1
    ∙ ap (read_pattern fuel rest) (append_assoc nstr (c ∷ []) t))

-- A `%` with a name that the scan finds.
read_named :
    (fuel : ℕ) (rest nstr str fmt left : List ℕ)
    → starts_percent rest ≡ false
    → scan_name [] rest ≡ scanned str fmt left
    → read_pattern (suc fuel) (b'%' ∷ rest) nstr
      ≡ add_parts (flush nstr ++ (named str fmt ∷ [])) false (read_pattern fuel left [])
unfolding read_pattern
read_named fuel rest nstr str fmt left no_percent scan = rw (no_percent, scan) refl

flush-text : (t : List ℕ) → is_nil t ≡ false → flush t ≡ plain t ∷ []
flush-text [] h = cc
flush-text (c ∷ t) h = refl

pub read_pattern-print :
    (ps : List Piece) (nstr : List ℕ) (fuel : ℕ)
    → IsReadable (is_nil nstr) ps
    → length (print ps) < fuel
    → read_pattern fuel (print ps) nstr ≡ some (flush nstr ++ map part_of ps, false)
unfolding print read_pattern
read_pattern-print ps nstr zero h enough = absurd (omega arith)
read_pattern-print [] nstr (suc fuel) h enough =
    ap (λ parts. some (parts, false)) (sym (append-nil (flush nstr)))
read_pattern-print (text t ∷ ps) [] (suc fuel) h enough =
    let size : length (print (text t ∷ ps)) ≡ length t + length (print ps) =
      length-append t (print ps) in
    let readable : IsReadable (is_nil t) ps = subst (λ b. IsReadable b ps) (sym h.1) h.3 in
    read_text t (print ps) [] (suc fuel) (suc fuel - length t) (omega arith) h.2
    ∙ read_pattern-print ps t (suc fuel - length t) readable (omega arith)
    ∙ ap (λ f. some (f ++ map part_of ps, false)) (flush-text t h.1)
read_pattern-print (text t ∷ ps) (c ∷ nstr) (suc fuel) h enough = cc (h.0)
read_pattern-print (short k ∷ ps) nstr (suc fuel) h enough =
    let (word, no_brace, no_percent) = key-test k in
    read_named fuel (key k ∷ print ps) nstr (key k ∷ []) [] (print ps) no_percent
      (scan_name-key (key k) (print ps) word no_brace ∙ scan_name-stop (key k ∷ []) (print ps) h.0)
    ∙ ap (add_parts (flush nstr ++ (named (key k ∷ []) [] ∷ [])) false)
        (read_pattern-print ps [] fuel h.1 (omega arith))
    ∙ ap (λ parts. some (parts, false))
        (append_assoc (flush nstr) (named (key k ∷ []) [] ∷ []) (map part_of ps))
read_pattern-print (braced k fmt ∷ ps) nstr (suc fuel) h enough =
    let rest : List ℕ = b'{' ∷ (fmt ++ (b'}' ∷ print ps)) in
    let size : length (fmt ++ (b'}' ∷ print ps)) ≡ length fmt + suc (length (print ps)) =
      length-append fmt (b'}' ∷ print ps) in
    let (word, no_brace, no_percent) = key-test k in
    read_named fuel (key k ∷ rest) nstr (key k ∷ []) fmt (print ps) no_percent (
      scan_name-key (key k) rest word no_brace
      ∙ scan_name-brace (key k ∷ []) (fmt ++ (b'}' ∷ print ps))
      ∙ scan_fmt-closed (key k ∷ []) [] fmt (print ps) h.0)
    ∙ ap (add_parts (flush nstr ++ (named (key k ∷ []) fmt ∷ [])) false)
        (read_pattern-print ps [] fuel h.1 (omega arith))
    ∙ ap (λ parts. some (parts, false))
        (append_assoc (flush nstr) (named (key k ∷ []) fmt ∷ []) (map part_of ps))

make_items-parts : (ps : List Piece) → make_items (map part_of ps) ≡ (map item_of ps, false)
unfolding make_items
make_items-parts [] = refl
make_items-parts (text t ∷ ps) = ap (add_item (string_item t) false) (make_items-parts ps)
make_items-parts (short k ∷ ps) =
    rw (find_kind-key k, make_items) (ap (add_item (new_item k []) false) (make_items-parts ps))
make_items-parts (braced k fmt ∷ ps) =
    rw (find_kind-key k, make_items) (ap (add_item (new_item k fmt) false) (make_items-parts ps))

-- A formatter that is built from the pattern of readable pieces has no error, and its items are
-- those of the pieces, in their order.
pub new_formatter-print :
    (ps : List Piece)
    → IsReadable true ps
    → new_formatter (print ps)
      ≡ some (record { pattern = print ps; items = map item_of ps; error = false })
unfolding new_formatter
new_formatter-print ps h =
    let read = read_pattern-print ps [] (suc (length (print ps))) h (omega arith) in
    let items = make_items-parts ps in
    rw (read, new_formatter)
      (ap
        (λ (made : List FormatItem × Bool).
          some (record { pattern = print ps; items = made.0; error = made.1 }))
        items)
