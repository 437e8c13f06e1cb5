-- ===== src/Log/Scan.antt =====
-- Reading a pattern ends, whatever the pattern is.
use server_demo.Common.{
  ℕ, zero, suc, ◌≤◌, ◌<◌, ◌≡◌, refl, Bool, true, false, ◌||◌, Option, none, some, List, [], ◌∷◌,
  ◌++◌, ◌==◌, length, arith, Bool-cases, inl, inr,
}
use server_demo.Log.Pattern.{
  Scan, scanned, unclosed, scan_fmt, scan_name, is_word, Part, plain, named, flush, pattern_error,
  starts_percent, add_parts, read_pattern, LogFormatter, built, new_formatter,
}

-- What is left behind a name is no longer than what was there.
abbrev pub Shrinks : ℕ → Scan → Type 0
Shrinks n (scanned str fmt left) = length left ≤ n
Shrinks n unclosed = Unit {0}

Shrinks-le : (m n : ℕ) (s : Scan) → m ≤ n → Shrinks m s → Shrinks n s
Shrinks-le m n (scanned str fmt left) le h = omega arith
Shrinks-le m n unclosed le h = tt

scan_fmt-Shrinks : (str fmt rest : List ℕ) → Shrinks (length rest) (scan_fmt str fmt rest)
unfolding scan_fmt
scan_fmt-Shrinks str fmt [] = tt
scan_fmt-Shrinks str fmt (c ∷ rest) =
    let further = scan_fmt-Shrinks str (fmt ++ (c ∷ [])) rest in
    elim (Bool-cases (c == b'}')) [
      | inl q ↦ rw q (omega arith)
      | inr q ↦ rw q (Shrinks-le (length rest) (suc (length rest)) _ (omega arith) further)
    ]

pub scan_name-Shrinks : (str rest : List ℕ) → Shrinks (length rest) (scan_name str rest)
unfolding scan_name
scan_name-Shrinks str [] = omega arith
scan_name-Shrinks str (c ∷ rest) = elim (Bool-cases (is_word c)) [
  | inr q ↦ rw q (omega arith)
  | inl q ↦ elim (Bool-cases (c == b'{')) [
    | inl q' ↦
        rw (q, q')
          (Shrinks-le (length rest) (suc (length rest)) _ (omega arith)
            (scan_fmt-Shrinks str [] rest))
    | inr q' ↦
        rw (q, q')
          (Shrinks-le (length rest) (suc (length rest)) _ (omega arith)
            (scan_name-Shrinks (str ++ (c ∷ [])) rest))
  ]
]

abbrev Ends : Option (List Part × Bool) → Type 0
Ends o = (vec : List Part × Bool) × (o ≡ some vec)

add_parts-Ends :
    (new : List Part) (failed : Bool) (o : Option (List Part × Bool))
    → Ends o
    → Ends (add_parts new failed o)
add_parts-Ends new failed none h = absurd (cc (h.1))
add_parts-Ends new failed (some (parts, error)) h = ((new ++ parts, failed || error), refl)

-- Enough rounds for the length of the pattern are enough for the loop.
pub read_pattern-Ends :
    (fuel : ℕ) (pattern nstr : List ℕ)
    → length pattern < fuel
    → Ends (read_pattern fuel pattern nstr)
unfolding read_pattern
read_pattern-Ends zero pattern nstr enough = absurd (omega arith)
read_pattern-Ends (suc fuel) [] nstr enough = ((flush nstr, false), refl)
read_pattern-Ends (suc fuel) (c ∷ rest) nstr enough =
    let literal = read_pattern-Ends fuel rest (nstr ++ (c ∷ [])) (omega arith) in
    elim (Bool-cases (c == b'%')) [
      | inr q ↦ rw q literal
      | inl q ↦ elim (Bool-cases (starts_percent rest)) [
        | inl q' ↦ rw (q, q') literal
        | inr q' ↦
            rw (q, q')
              (behind (scan_name [] rest) (scan_name-Shrinks [] rest)
                (λ left h. read_pattern-Ends fuel left [] (omega arith))
                (read_pattern-Ends fuel rest nstr (omega arith)))
      ]
    ]
  where
    behind :
        (s : Scan)
        → Shrinks (length rest) s
        → ((left : List ℕ) → length left ≤ length rest → Ends (read_pattern fuel left []))
        → Ends (read_pattern fuel rest nstr)
        → Ends (elim s [
          | scanned str fmt left ↦
              add_parts (flush nstr ++ (named str fmt ∷ [])) false (read_pattern fuel left [])
          | unclosed ↦ add_parts (plain pattern_error ∷ []) true (read_pattern fuel rest nstr)
        ])
    behind (scanned str fmt left) h next again =
        add_parts-Ends (flush nstr ++ (named str fmt ∷ [])) false (read_pattern fuel left [])
          (next left h)
    behind unclosed h next again =
        add_parts-Ends (plain pattern_error ∷ []) true (read_pattern fuel rest nstr) again

-- A formatter is built from every pattern: the loop of `init` ends, within one round for each
-- character of the pattern and one more.
pub new_formatter_total :
    (pattern : List ℕ)
    → (f : LogFormatter) × (new_formatter pattern ≡ some f) × (f.pattern ≡ pattern)
unfolding new_formatter
new_formatter_total pattern =
    let (vec, e) = read_pattern-Ends (suc (length pattern)) pattern [] (omega arith) in
    (built pattern vec, rw (e, new_formatter) refl, refl)
