-- ===== src/Http/Dispatch.antt =====
-- How adding and deleting servlets changes which of them answers a path.
use server_demo.Common.{
  ℕ, ◌≡◌, ◌↔◌, refl, ap, Bool, true, Option, none, some, List, [], ◌∷◌, ◌++◌, arith, if◌then◌else◌,
  Bool-cases, Option-cases, inl, inr,
}
use server_demo.Http.Bytes.{c_str, same_bytes, same_bytes→≡, same_bytes_refl}
use server_demo.Http.Message.{HttpRequest, HttpResponse}
use server_demo.Http.Servlet.{
  Servlet, not_found, ServletDispatch, find_uri, put_uri, erase_uri, add_servlet, del_servlet,
  erase_glob, add_glob_servlet, del_glob_servlet, get_servlet, first_glob, get_glob_servlet,
  get_matched_servlet, handle_not_found, handle_ptr, found_or, dispatch,
}

same_bytes_iff : (s t : List ℕ) → (same_bytes s t ≡ true) ↔ (s ≡ t)
same_bytes_iff s t = (same_bytes→≡ s t, (λ e. rw e (same_bytes_refl t)))

find_uri-put_uri :
    (u uri : List ℕ) (slt : Option Servlet) (m : List (List ℕ × Option Servlet))
    → find_uri u (put_uri uri slt m) ≡ (if same_bytes uri u then some slt else find_uri u m)
unfolding find_uri put_uri
find_uri-put_uri u uri slt [] = refl
find_uri-put_uri u uri slt ((x, s) ∷ m) = ground (
  arith,
  find_uri-put_uri u uri slt m,
  same_bytes_iff uri u,
  same_bytes_iff x u,
  same_bytes_iff x uri,
)

find_uri-erase_uri :
    (u uri : List ℕ) (m : List (List ℕ × Option Servlet))
    → find_uri u (erase_uri uri m) ≡ (if same_bytes uri u then none else find_uri u m)
unfolding find_uri erase_uri
find_uri-erase_uri u uri [] = ground arith
find_uri-erase_uri u uri ((x, s) ∷ m) = ground (
  arith,
  find_uri-erase_uri u uri m,
  same_bytes_iff uri u,
  same_bytes_iff x u,
  same_bytes_iff x uri,
)

module _ (fnmatch : List ℕ → List ℕ → Bool) where
  -- Whatever fnmatch does, after `addServlet` the path is matched by the servlet that was added,
  -- and every other path by what matched it before.
  pub get_matched_servlet-add_servlet :
      (u uri : List ℕ) (slt : Option Servlet) (d : ServletDispatch)
      → get_matched_servlet fnmatch u (add_servlet uri slt d)
        ≡ (if same_bytes uri u then slt else get_matched_servlet fnmatch u d)
  unfolding get_matched_servlet add_servlet
  get_matched_servlet-add_servlet u uri slt d = elim (Bool-cases (same_bytes uri u)) [
    | inl this ↦ rw (find_uri-put_uri u uri slt d.datas, this) refl
    | inr other ↦ rw (find_uri-put_uri u uri slt d.datas, other) refl
  ]

  -- What the globs, and behind them the default, make of a path.
  abbrev pub by_globs : List ℕ → ServletDispatch → Option Servlet
  by_globs u d = found_or (first_glob fnmatch u d.globs) d.default

  -- Whatever fnmatch does, after `delServlet` the path is matched by the first glob that fits it,
  -- or else by the default, and every other path by what matched it before.
  pub get_matched_servlet-del_servlet :
      (u uri : List ℕ) (d : ServletDispatch)
      → get_matched_servlet fnmatch u (del_servlet uri d)
        ≡ (if same_bytes uri u then by_globs u d else get_matched_servlet fnmatch u d)
  unfolding get_matched_servlet del_servlet
  get_matched_servlet-del_servlet u uri d = elim (Bool-cases (same_bytes uri u)) [
    | inl this ↦ rw (find_uri-erase_uri u uri d.datas, this) refl
    | inr other ↦ rw (find_uri-erase_uri u uri d.datas, other) refl
  ]

  abbrev or_else : Option (Option Servlet) → Option (Option Servlet) → Option (Option Servlet)
  or_else (some s) behind = some s
  or_else none behind = behind

  first_glob-append :
      (u uri : List ℕ) (slt : Option Servlet) (m : List (List ℕ × Option Servlet))
      → first_glob fnmatch u (m ++ ((uri, slt) ∷ []))
        ≡ or_else
            (first_glob fnmatch u m)
            (if fnmatch (c_str uri) (c_str u) then some slt else none)
  unfolding first_glob
  first_glob-append u uri slt [] = refl
  first_glob-append u uri slt ((x, s) ∷ m) = elim (Bool-cases (fnmatch (c_str x) (c_str u))) [
    | inl hit ↦ rw hit refl
    | inr miss ↦ rw miss (first_glob-append u uri slt m)
  ]

  -- Whatever fnmatch does, after `addGlobServlet` a path is matched by the first of the other
  -- globs that fits it, or else by the servlet that was added if its glob fits.
  pub get_glob_servlet-add_glob_servlet :
      (u uri : List ℕ) (slt : Option Servlet) (d : ServletDispatch)
      → get_glob_servlet fnmatch u (add_glob_servlet uri slt d)
        ≡ found_or
            (first_glob fnmatch u (del_glob_servlet uri d).globs)
            (if fnmatch (c_str uri) (c_str u) then slt else none)
  unfolding get_glob_servlet add_glob_servlet del_glob_servlet
  get_glob_servlet-add_glob_servlet u uri slt d =
      elim (Option-cases (first_glob fnmatch u (erase_glob uri d.globs))) [
        | inl nothing ↦ elim (Bool-cases (fnmatch (c_str uri) (c_str u))) [
          | inl hit ↦ rw (first_glob-append u uri slt (erase_glob uri d.globs), nothing, hit) refl
          | inr miss ↦ rw (first_glob-append u uri slt (erase_glob uri d.globs), nothing, miss) refl
        ]
        | inr (s, there) ↦ rw (first_glob-append u uri slt (erase_glob uri d.globs), there) refl
      ]

  -- `getMatchedServlet` agrees with `getServlet`, then `getGlobServlet`, then `getDefault`, as far
  -- as these tell a servlet from a null pointer.
  pub get_matched_servlet-stages :
      (u : List ℕ) (slt : Servlet) (d : ServletDispatch)
      → ((get_servlet u d ≡ some slt) → get_matched_servlet fnmatch u d ≡ some slt)
        × (find_uri u d.datas ≡ none
            → get_glob_servlet fnmatch u d ≡ some slt
            → get_matched_servlet fnmatch u d ≡ some slt)
        × (find_uri u d.datas ≡ none
            → first_glob fnmatch u d.globs ≡ none
            → get_matched_servlet fnmatch u d ≡ d.default)
  unfolding get_matched_servlet get_servlet get_glob_servlet
  get_matched_servlet-stages u slt d = (ground arith, ground arith, ground arith)

  -- A request whose path has no servlet of its own and fits no glob is answered with status 404
  -- if the default is the built-in one.
  pub dispatch-not_found :
      (run : ℕ → HttpRequest → HttpResponse → HttpResponse) (request : HttpRequest)
      (response : HttpResponse) (d : ServletDispatch)
      → find_uri request.path d.datas ≡ none
      → first_glob fnmatch request.path d.globs ≡ none
      → d.default ≡ some not_found
      → (dispatch fnmatch run request response d).status ≡ 404
  unfolding dispatch get_matched_servlet handle_not_found
  dispatch-not_found run request response d h k e =
      let default : get_matched_servlet fnmatch request.path d ≡ some not_found = rw (h, k) e in
      ap (λ slt. (handle_ptr run slt request response).status) default
