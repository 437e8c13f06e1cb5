-- ===== src/Env/Tests.antt =====
-- A command line, and the theorem at it.
use server_demo.Common.{◌≡◌, refl, true, false, none, some, List, [], ◌∷◌}
use server_demo.Http.Bytes.{codes}
use server_demo.Env.State.{
  Env, init, find, parse, before_last_slash, get, or_default, get_absolute_path,
}
use server_demo.Env.Args.{Arg, print, last_value, get-init}

abbrev empty_env : Env
empty_env = record { args = []; helps = []; program = []; exe = []; cwd = [] }

-- -d -c conf
abbrev opts : List Arg
opts = (codes "d", none) ∷ (codes "c", some (codes "conf")) ∷ []

working_directory :
    get_absolute_path (codes "conf") (init (codes "/bin/server") (codes "server") [] empty_env).1
    ≡ codes "/bin/conf"
unfolding get_absolute_path init parse before_last_slash
working_directory = refl

-- A value without a key is refused.
stray_value : (init (codes "/bin/server") (codes "server") (codes "conf" ∷ []) empty_env).0 ≡ false
unfolding init parse
stray_value = refl

get-init_example :
    ((init (codes "/bin/server") (codes "server") (print opts) empty_env).0 ≡ true)
    × (get
          (codes "c")
          (codes "none")
          (init (codes "/bin/server") (codes "server") (print opts) empty_env).1
        ≡ or_default (codes "none") (last_value (codes "c") (find (codes "c") empty_env.args) opts))
get-init_example =
    get-init (codes "/bin/server") (codes "server") opts (codes "c") (codes "none") empty_env
      ((refl, tt), ((refl, (refl, tt)), tt))
