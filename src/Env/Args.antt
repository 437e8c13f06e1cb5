-- ===== src/Env/Args.antt =====
-- The arguments that a program is given, and what `init` makes of them.
use server_demo.Common.{
  ◌≡◌, ◌↔◌, refl, ap, ◌∙◌, Bool, true, false, Option, none, some, List, [], ◌∷◌, ◌++◌, All, arith,
  if◌then◌else◌,
}
use server_demo.Http.Bytes.{codes, same_bytes, same_bytes_refl, same_bytes→≡}
use server_demo.Env.State.{
  Bytes, Env, find, put, add, get, or_default, is_key, is_empty, close_key, parse, init, directory,
}

-- An option: a key, which may have a value.
abbrev pub Arg : Type 0
Arg = Bytes × Option Bytes

abbrev pub value : Option Bytes → List Bytes
value none = []
value (some v) = v ∷ []

-- How options are written on the command line.
unfoldable pub print : List Arg → List Bytes
print [] = []
print ((key, v) ∷ opts) = (b'-' ∷ key) ∷ (value v ++ print opts)

-- No key is empty, and no value starts with a dash.
abbrev pub IsPlain : List Arg → Type 0
IsPlain opts =
    All (λ (o : Arg). (is_empty o.0 ≡ false) × All (λ v. is_key v ≡ false) (value o.1)) opts

abbrev pub text_of : Option Bytes → Bytes
text_of none = []
text_of (some v) = v

-- The options set one after the other, one without a value to the empty text.
abbrev pub add_all : List Arg → Env → Env
add_all [] e = e
add_all ((key, v) ∷ opts) e = add_all opts (add key (text_of v) e)

parse-print :
    (opts : List Arg) (now_key : Option Bytes) (e : Env)
    → IsPlain opts
    → parse now_key (print opts) e ≡ (true, add_all opts (close_key now_key e))
unfolding parse print
parse-print [] now_key e h = refl
parse-print ((key, none) ∷ opts) now_key e h =
    rw (h.0.0) (parse-print opts (some key) (close_key now_key e) h.1)
parse-print ((key, some v) ∷ opts) now_key e h =
    rw (h.0.0, h.0.1.0) (parse-print opts none (add key v (close_key now_key e)) h.1)

-- What was given last for a key, among options.
abbrev pub last_value : Bytes → Option Bytes → List Arg → Option Bytes
last_value key found [] = found
last_value key found ((k, v) ∷ opts) =
    last_value key (if same_bytes k key then some (text_of v) else found) opts

same_iff : (s t : Bytes) → (same_bytes s t ≡ true) ↔ (s ≡ t)
same_iff s t = (same_bytes→≡ s t, λ e. rw e (same_bytes_refl t))

find-put :
    (key k v : Bytes) (args : List (Bytes × Bytes))
    → find key (put k v args) ≡ (if same_bytes k key then some v else find key args)
unfolding find put
find-put key k v [] = ground arith
find-put key k v ((j, w) ∷ args) =
    ground (arith, find-put key k v args, same_iff j k, same_iff j key, same_iff k key)

find-add_all :
    (key : Bytes) (opts : List Arg) (e : Env)
    → find key (add_all opts e).args ≡ last_value key (find key e.args) opts
unfolding add
find-add_all key [] e = refl
find-add_all key ((k, v) ∷ opts) e =
    find-add_all key opts (add k (text_of v) e)
    ∙ ap (λ o. last_value key o opts) (find-put key k (text_of v) e.args)

-- Options whose keys are not empty and whose values do not start with a dash are accepted by
-- `init`, and afterwards `get` of a key gives the value that was given for it last, the empty
-- text if it had none, and what `get` gave before for a key that was not given.
pub get-init :
    (exe program : Bytes) (opts : List Arg) (key default_val : Bytes) (e : Env)
    → IsPlain opts
    → ((init exe program (print opts) e).0 ≡ true)
      × (get key default_val (init exe program (print opts) e).1
          ≡ or_default default_val (last_value key (find key e.args) opts))
unfolding init get
get-init exe program opts key default_val e h =
    let e' : Env = record e { exe = exe; cwd = directory exe ++ codes "/"; program = program } in
    let parsed = parse-print opts none e' h in
    (
      ap (λ (r : Bool × Env). r.0) parsed,
      ap (λ (r : Bool × Env). get key default_val r.1) parsed
          ∙ ap (or_default default_val) (find-add_all key opts e'),
    )
