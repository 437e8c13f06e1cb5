-- ===== src/Env/State.antt =====
-- Env. A string is the list of its bytes; `m_args` is an association list with one entry a key.
use server_demo.Common.{
  ℕ, Bool, true, false, Option, none, some, List, [], ◌∷◌, ◌++◌, ◌==◌, if◌then◌else◌,
}
use server_demo.Http.Bytes.{codes, same_bytes}

abbrev pub Bytes : Type 0
Bytes = List ℕ

pub record Env : Type 0 where
  pub args : List (Bytes × Bytes)
  pub helps : List (Bytes × Bytes)
  pub program : Bytes
  pub exe : Bytes
  pub cwd : Bytes

-- m_args.find
unfoldable pub find : Bytes → List (Bytes × Bytes) → Option Bytes
unfolding same_bytes
find key [] = none
find key ((k, v) ∷ args) = let rest = find key args in if same_bytes k key then some v else rest

-- m_args[key] = val
unfoldable pub put : Bytes → Bytes → List (Bytes × Bytes) → List (Bytes × Bytes)
unfolding same_bytes
put key val [] = (key, val) ∷ []
put key val ((k, v) ∷ args) =
    let rest = put key val args in if same_bytes k key then (k, val) ∷ args else (k, v) ∷ rest

-- m_args.erase(key)
unfoldable pub erase : Bytes → List (Bytes × Bytes) → List (Bytes × Bytes)
unfolding same_bytes
erase key [] = []
erase key ((k, v) ∷ args) =
    let rest = erase key args in if same_bytes k key then args else (k, v) ∷ rest

unfoldable pub add : Bytes → Bytes → Env → Env
unfolding put
add key val e = record e { args = put key val e.args }

unfoldable pub has : Bytes → Env → Bool
unfolding find
has key e = elim (find key e.args) [ none ↦ false | some v ↦ true ]

abbrev pub or_default : Bytes → Option Bytes → Bytes
or_default default_val none = default_val
or_default default_val (some v) = v

unfoldable pub get : Bytes → Bytes → Env → Bytes
unfolding find
get key default_val e = or_default default_val (find key e.args)

unfoldable pub del : Bytes → Env → Env
unfolding erase
del key e = record e { args = erase key e.args }

-- Env::removeHelp erases the first entry of the key; Env::addHelp then puts the new one last.
unfoldable pub remove_help : Bytes → Env → Env
unfolding erase
remove_help key e = record e { helps = erase key e.helps }

unfoldable pub add_help : Bytes → Bytes → Env → Env
unfolding remove_help
add_help key desc e =
    let e' = remove_help key e in record e' { helps = e'.helps ++ ((key, desc) ∷ []) }

-- `argv[i][0] == '-'`, and what stands behind it.
abbrev pub is_key : Bytes → Bool
is_key [] = false
is_key (c ∷ s) = c == b'-'

abbrev pub behind : Bytes → Bytes
behind [] = []
behind (c ∷ s) = s

abbrev pub is_empty : Bytes → Bool
is_empty [] = true
is_empty (c ∷ s) = false

-- if(now_key) add(now_key, "")
abbrev pub close_key : Option Bytes → Env → Env
close_key none e = e
close_key (some key) e = add key [] e

-- The loop over the arguments and what follows it: the result of Env::init, and its state.
unfoldable pub parse : Option Bytes → List Bytes → Env → Bool × Env
unfolding add
parse now_key [] e = (true, close_key now_key e)
parse now_key (arg ∷ args) e =
    let next = parse (some (behind arg)) args (close_key now_key e) in
    let valued = λ (key : Bytes). parse none args (add key arg e) in
    if is_key arg
    then if is_empty (behind arg) then (false, e) else next
    else elim now_key [ none ↦ (false, e) | some key ↦ valued key ]

-- m_exe.substr(0, m_exe.find_last_of("/")): all of it if there is none.
unfoldable pub before_last_slash : Bytes → Option Bytes
before_last_slash [] = none
before_last_slash (c ∷ s) = elim (before_last_slash s) [
  | some dir ↦ some (c ∷ dir)
  | none ↦ if c == b'/' then some [] else none
]

abbrev pub directory : Bytes → Bytes
directory exe = elim (before_last_slash exe) [ none ↦ exe | some dir ↦ dir ]

-- Env::init, of a program whose link in /proc names the file `exe`.
unfoldable pub init : Bytes → Bytes → List Bytes → Env → Bool × Env
unfolding parse before_last_slash
init exe program args e =
    parse none args (record e { exe = exe; cwd = directory exe ++ codes "/"; program = program })

-- Env::getAbsolutePath
unfoldable pub get_absolute_path : Bytes → Env → Bytes
get_absolute_path [] e = e.cwd
get_absolute_path (c ∷ path) e = if c == b'/' then c ∷ path else e.cwd ++ (c ∷ path)
