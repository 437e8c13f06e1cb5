-- ===== src/Log/Pattern.antt =====
-- LogFormatter::init, which reads a pattern, and LogFormatter::format. A text is the list of its
-- characters, and what is left of the pattern stands for the index into it.
use server_demo.Common.{
  ℕ, zero, suc, Bool, true, false, not, ◌&&◌, ◌||◌, Option, none, some, List, [], ◌∷◌, ◌++◌, ◌==◌,
  leb, length, if◌then◌else◌,
}
use server_demo.Http.Bytes.{codes, same_bytes}

-- isalpha
abbrev pub is_alpha : ℕ → Bool
is_alpha c = leb b'a' c && leb c b'z' || leb b'A' c && leb c b'Z'

-- The characters that go on with the name behind a `%`.
abbrev pub is_word : ℕ → Bool
is_word c = is_alpha c || c == b'{' || c == b'}'

-- What the loop behind a `%` comes to: the name, the format and what is left; or `fmt_state` is 1.
pub data Scan : Type 0 where
  scanned : List ℕ → List ℕ → List ℕ → Scan
  unclosed : Scan

-- fmt_state == 1: up to the closing brace.
unfoldable pub scan_fmt : List ℕ → List ℕ → List ℕ → Scan
scan_fmt str fmt [] = unclosed
scan_fmt str fmt (c ∷ rest) =
    let further = scan_fmt str (fmt ++ (c ∷ [])) rest in
    if c == b'}' then scanned str fmt rest else further

-- fmt_state == 0: the name.
unfoldable pub scan_name : List ℕ → List ℕ → Scan
scan_name str [] = scanned str [] []
scan_name str (c ∷ rest) =
    let further = scan_name (str ++ (c ∷ [])) rest in
    if not (is_word c)
    then scanned str [] (c ∷ rest)
    else if c == b'{'
    then scan_fmt str [] rest
    else further

-- The triples of `vec`; the type 0 is a text.
pub data Part : Type 0 where
  plain : List ℕ → Part
  named : List ℕ → List ℕ → Part

-- if(!nstr.empty()) vec.push_back(nstr)
abbrev pub flush : List ℕ → List Part
flush [] = []
flush (c ∷ nstr) = plain (c ∷ nstr) ∷ []

abbrev pub pattern_error : List ℕ
pattern_error = codes "<<pattern_error>>"

-- `m_pattern[i + 1] == '%'`
abbrev pub starts_percent : List ℕ → Bool
starts_percent [] = false
starts_percent (c ∷ rest) = c == b'%'

abbrev pub add_parts : List Part → Bool → Option (List Part × Bool) → Option (List Part × Bool)
add_parts new failed none = none
add_parts new failed (some (parts, error)) = some (new ++ parts, failed || error)

-- The loop over the pattern: `vec` behind it, and m_error; `none` is a loop that has not ended.
-- At `%%` the first one is text, and the loop goes on at the second.
unfoldable pub read_pattern : ℕ → List ℕ → List ℕ → Option (List Part × Bool)
unfolding scan_name scan_fmt
read_pattern zero pattern nstr = none
read_pattern (suc fuel) [] nstr = some (flush nstr, false)
read_pattern (suc fuel) (c ∷ rest) nstr =
    let literal = read_pattern fuel rest (nstr ++ (c ∷ [])) in
    let behind : Option (List Part × Bool) = elim (scan_name [] rest) [
      | scanned str fmt left ↦
          add_parts (flush nstr ++ (named str fmt ∷ [])) false (read_pattern fuel left [])
      | unclosed ↦ add_parts (plain pattern_error ∷ []) true (read_pattern fuel rest nstr)
    ] in
    if not (c == b'%') then literal else if starts_percent rest then literal else behind

-- The classes of items but StringFormatItem, and their keys in s_format_items.
pub data Kind : Type 0 where
  message level elapse name thread_id new_line date_time filename line tab fiber_id thread_name :
      Kind

abbrev pub key : Kind → ℕ
key message = b'm'
key level = b'p'
key elapse = b'r'
key name = b'c'
key thread_id = b't'
key new_line = b'n'
key date_time = b'd'
key filename = b'f'
key line = b'l'
key tab = b'T'
key fiber_id = b'F'
key thread_name = b'N'

abbrev pub kinds : List Kind
kinds =
    message ∷ level ∷ elapse ∷ name ∷ thread_id ∷ new_line ∷ date_time ∷ filename ∷ line ∷ tab
    ∷ fiber_id ∷ thread_name ∷ []

-- s_format_items.find
unfoldable pub find_kind : List Kind → List ℕ → Option Kind
unfolding same_bytes
find_kind [] str = none
find_kind (k ∷ ks) str =
    let rest = find_kind ks str in if same_bytes str (key k ∷ []) then some k else rest

-- An item: a text, or an object of another class with its m_format, which only DateTimeFormatItem
-- has.
pub data FormatItem : Type 0 where
  string_item : List ℕ → FormatItem
  kind_item : Kind → List ℕ → FormatItem

abbrev pub default_time : List ℕ
default_time = codes "%Y-%m-%d %H:%M:%S"

abbrev pub new_item : Kind → List ℕ → FormatItem
new_item date_time [] = kind_item date_time default_time
new_item date_time (c ∷ fmt) = kind_item date_time (c ∷ fmt)
new_item k fmt = kind_item k []

abbrev pub add_item : FormatItem → Bool → List FormatItem × Bool → List FormatItem × Bool
add_item item failed (items, error) = (item ∷ items, failed || error)

abbrev pub unknown_item : List ℕ → FormatItem
unknown_item str = string_item (codes "<< error_format %" ++ (str ++ codes ">>"))

-- The loop over `vec`: m_items, and whether a name is unknown.
unfoldable pub make_items : List Part → List FormatItem × Bool
unfolding find_kind
make_items [] = ([], false)
make_items (plain str ∷ parts) = add_item (string_item str) false (make_items parts)
make_items (named str fmt ∷ parts) = elim (find_kind kinds str) [
  | none ↦ add_item (unknown_item str) true (make_items parts)
  | some k ↦ add_item (new_item k fmt) false (make_items parts)
]

pub record LogFormatter : Type 0 where
  pub pattern : List ℕ
  pub items : List FormatItem
  pub error : Bool

abbrev pub built : List ℕ → List Part × Bool → LogFormatter
built pattern (parts, failed) = record {
  pattern = pattern;
  items = (make_items parts).0;
  error = failed || (make_items parts).1;
}

-- LogFormatter::LogFormatter, with LogFormatter::init.
unfoldable pub new_formatter : List ℕ → Option LogFormatter
unfolding read_pattern make_items
new_formatter pattern = elim (read_pattern (suc (length pattern)) pattern []) [
  | none ↦ none
  | some vec ↦ some (built pattern vec)
]
