-- ===== src/Http/Servlet.antt =====
-- sylar/http/servlet.h and sylar/http/servlet.cc: which servlet answers a path.
use server_demo.Common.{ℕ, Bool, Option, none, some, List, [], ◌∷◌, ◌++◌, if◌then◌else◌}
use server_demo.Http.Bytes.{codes, c_str, same_bytes}
use server_demo.Http.Headers.{set_header}
use server_demo.Http.Message.{HttpRequest, HttpResponse}

-- A servlet: one that a callback answers for, named by a number, or the built-in ones.
pub data Servlet : Type 0 where
  function : ℕ → Servlet
  not_found : Servlet

-- A `Servlet::ptr` may be null. `datas` is a map, so a key stands in it once.
pub record ServletDispatch : Type 0 where
  pub datas : List (List ℕ × Option Servlet)
  pub globs : List (List ℕ × Option Servlet)
  pub default : Option Servlet

unfoldable pub new_dispatch : ServletDispatch
new_dispatch = record { datas = []; globs = []; default = some not_found }

-- std::unordered_map: find, `m[uri] = slt` and erase.
unfoldable pub find_uri : List ℕ → List (List ℕ × Option Servlet) → Option (Option Servlet)
find_uri uri [] = none
find_uri uri ((u, slt) ∷ m) = if same_bytes u uri then some slt else find_uri uri m

unfoldable pub put_uri :
    List ℕ → Option Servlet → List (List ℕ × Option Servlet) → List (List ℕ × Option Servlet)
put_uri uri slt [] = (uri, slt) ∷ []
put_uri uri slt ((u, s) ∷ m) = if same_bytes u uri then (u, slt) ∷ m else (u, s) ∷ put_uri uri slt m

unfoldable pub erase_uri : List ℕ → List (List ℕ × Option Servlet) → List (List ℕ × Option Servlet)
erase_uri uri [] = []
erase_uri uri ((u, s) ∷ m) = if same_bytes u uri then erase_uri uri m else (u, s) ∷ erase_uri uri m

unfoldable pub add_servlet : List ℕ → Option Servlet → ServletDispatch → ServletDispatch
add_servlet uri slt d = record d { datas = put_uri uri slt d.datas }

-- The overload that takes a callback.
unfoldable pub add_servlet_cb : List ℕ → ℕ → ServletDispatch → ServletDispatch
add_servlet_cb uri cb = add_servlet uri (some (function cb))

unfoldable pub del_servlet : List ℕ → ServletDispatch → ServletDispatch
del_servlet uri d = record d { datas = erase_uri uri d.datas }

-- The loop that erases the first glob with the given text.
unfoldable pub erase_glob : List ℕ → List (List ℕ × Option Servlet) → List (List ℕ × Option Servlet)
erase_glob uri [] = []
erase_glob uri ((u, s) ∷ m) = if same_bytes u uri then m else (u, s) ∷ erase_glob uri m

unfoldable pub add_glob_servlet : List ℕ → Option Servlet → ServletDispatch → ServletDispatch
add_glob_servlet uri slt d = record d { globs = erase_glob uri d.globs ++ ((uri, slt) ∷ []) }

unfoldable pub add_glob_servlet_cb : List ℕ → ℕ → ServletDispatch → ServletDispatch
add_glob_servlet_cb uri cb = add_glob_servlet uri (some (function cb))

unfoldable pub del_glob_servlet : List ℕ → ServletDispatch → ServletDispatch
del_glob_servlet uri d = record d { globs = erase_glob uri d.globs }

unfoldable pub set_default : Option Servlet → ServletDispatch → ServletDispatch
set_default v d = record d { default = v }

-- What was found, or else the servlet behind.
abbrev pub found_or : Option (Option Servlet) → Option Servlet → Option Servlet
found_or (some slt) behind = slt
found_or none behind = behind

unfoldable pub get_servlet : List ℕ → ServletDispatch → Option Servlet
get_servlet uri d = found_or (find_uri uri d.datas) none

-- `fnmatch` is the C library's, true where it returns 0.
module _ (fnmatch : List ℕ → List ℕ → Bool) where
  -- The first glob that matches, with its servlet.
  unfoldable pub first_glob : List ℕ → List (List ℕ × Option Servlet) → Option (Option Servlet)
  first_glob uri [] = none
  first_glob uri ((u, s) ∷ m) = if fnmatch (c_str u) (c_str uri) then some s else first_glob uri m

  unfoldable pub get_glob_servlet : List ℕ → ServletDispatch → Option Servlet
  get_glob_servlet uri d = found_or (first_glob uri d.globs) none

  unfoldable pub get_matched_servlet : List ℕ → ServletDispatch → Option Servlet
  get_matched_servlet uri d =
      found_or (find_uri uri d.datas) (found_or (first_glob uri d.globs) d.default)

abbrev pub not_found_body : List ℕ
not_found_body =
    codes
      "<html><head><title>404 Not Found</title></head><body><center><h1>404 Not Found</h1></center><hr><center>custom-server/1.0.0</center></body></html>"

-- NotFoundServlet::handle, on the response.
unfoldable pub handle_not_found : HttpResponse → HttpResponse
handle_not_found response = record response {
  status = 404;
  headers =
      set_header (codes "Content-Type") (codes "text/html")
        (set_header (codes "Server") (codes "custom-server/1.0.0") response.headers);
  body = not_found_body;
}

-- Servlet::handle: a FunctionServlet runs its callback, which is the application's.
abbrev pub handle :
    (ℕ → HttpRequest → HttpResponse → HttpResponse)
    → Servlet
    → HttpRequest
    → HttpResponse
    → HttpResponse
handle run (function cb) request response = run cb request response
handle run not_found request response = handle_not_found response

-- `if(slt) slt->handle(...)`
abbrev pub handle_ptr :
    (ℕ → HttpRequest → HttpResponse → HttpResponse)
    → Option Servlet
    → HttpRequest
    → HttpResponse
    → HttpResponse
handle_ptr run none request response = response
handle_ptr run (some slt) request response = handle run slt request response

-- ServletDispatch::handle. It always returns 0.
unfoldable pub dispatch :
    (List ℕ → List ℕ → Bool)
    → (ℕ → HttpRequest → HttpResponse → HttpResponse)
    → HttpRequest
    → HttpResponse
    → ServletDispatch
    → HttpResponse
dispatch fnmatch run request response d =
    handle_ptr run (get_matched_servlet fnmatch request.path d) request response
