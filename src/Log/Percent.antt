-- ===== src/Log/Percent.antt =====
-- What becomes of a percent sign that is written as `%%`.
use server_demo.Common.{
  ℕ, suc, ◌+◌, ◌≡◌, refl, ap, ◌∙◌, true, false, some, List, [], ◌∷◌, ◌++◌, append_assoc, All, ◌==◌,
  length, length-append, arith,
}
use server_demo.Log.Pattern.{
  plain, named, flush, read_pattern, scan_name, find_kind, make_items, string_item, unknown_item,
  new_formatter,
}
use server_demo.Log.RoundTrip.{read_text}

abbrev pub double_percent : List ℕ
double_percent = b'%' ∷ b'%' ∷ []

read_double :
    (fuel : ℕ) (nstr : List ℕ)
    → read_pattern (suc (suc (suc fuel))) double_percent nstr
      ≡ some (flush (nstr ++ (b'%' ∷ [])) ++ (named [] [] ∷ []), false)
unfolding read_pattern scan_name
read_double fuel nstr =
    ap (λ parts. some (parts, false))
      (append_assoc (flush (nstr ++ (b'%' ∷ []))) (named [] [] ∷ []) [])

flush-snoc : (t : List ℕ) (c : ℕ) → flush (t ++ (c ∷ [])) ≡ plain (t ++ (c ∷ [])) ∷ []
flush-snoc [] c = refl
flush-snoc (d ∷ t) c = refl

-- A pattern that is a text without `%` and then `%%` is read as the text and one percent sign,
-- followed by a directive with an empty name, and the formatter has an error.
pub new_formatter-double_percent :
    (t : List ℕ)
    → All (λ c. (c == b'%') ≡ false) t
    → new_formatter (t ++ double_percent)
      ≡ some (record {
        pattern = t ++ double_percent;
        items = string_item (t ++ (b'%' ∷ [])) ∷ unknown_item [] ∷ [];
        error = true;
      })
unfolding new_formatter make_items find_kind
new_formatter-double_percent t h =
    let size : length (t ++ double_percent) ≡ length t + 2 = length-append t double_percent in
    let read =
      read_text t double_percent [] (suc (length (t ++ double_percent))) 3 (omega arith) h
      ∙ read_double 0 t
      ∙ ap (λ f. some (f ++ (named [] [] ∷ []), false)) (flush-snoc t b'%') in
    rw (read, new_formatter) refl
