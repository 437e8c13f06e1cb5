-- ===== src/Log/Emit.antt =====
-- What loggers and appenders share: formatters, and who writes an event.
use server_demo.Common.{
  ℕ, zero, suc, ◌+◌, ◌≡◌, refl, sym, ap, ◌∙◌, Bool, true, false, Option, none, some, List, [], ◌∷◌,
  ◌++◌, All, ◌==◌, get_elem?, set, get_elem?-set_if, length, arith, if◌then◌else◌, Bool-cases,
  Option-cases, inl, inr,
}
use server_demo.Http.Bytes.{same_bytes, same_bytes_refl}
use server_demo.Log.Level.{debug}
use server_demo.Log.Pattern.{LogFormatter, new_formatter}
use server_demo.Log.Percent.{double_percent, new_formatter-double_percent}
use server_demo.Log.Logger.{
  LogAppender, Logger, Logs, inherit, at_appender, share, set_formatter, set_formatter_text,
  find_logger, get_logger, default_pattern,
}

abbrev pub has : ℕ → List ℕ → Bool
has p [] = false
has p (q ∷ ps) = if q == p then true else has p ps

-- What an appender is behind `setFormatter` of a logger with the appenders `ps`.
abbrev pub shared : Option LogFormatter → List ℕ → ℕ → Option LogAppender → Option LogAppender
shared f ps p o = elim o [ none ↦ none | some a ↦ some (if has p ps then inherit f a else a) ]

abbrev pub changed_at :
    ℕ → ℕ → (LogAppender → LogAppender) → Option LogAppender → Option LogAppender
changed_at q p g o = elim o [ none ↦ none | some a ↦ some (if q == p then g a else a) ]

at_appender-get_elem? :
    (g : LogAppender → LogAppender) (q p : ℕ) (heap : List LogAppender)
    → get_elem? (at_appender g q heap) p ≡ changed_at q p g (get_elem? heap p)
at_appender-get_elem? g zero zero [] = refl
at_appender-get_elem? g zero (suc p) [] = refl
at_appender-get_elem? g (suc q) zero [] = refl
at_appender-get_elem? g (suc q) (suc p) [] = refl
at_appender-get_elem? g zero zero (a ∷ heap) = ground arith
at_appender-get_elem? g zero (suc p) (a ∷ heap) = ground arith
at_appender-get_elem? g (suc q) zero (a ∷ heap) = ground arith
at_appender-get_elem? g (suc q) (suc p) (a ∷ heap) =
    ground (arith, at_appender-get_elem? g q p heap)

share-get_elem? :
    (f : Option LogFormatter) (ps : List ℕ) (heap : List LogAppender) (p : ℕ)
    → get_elem? (share f ps heap) p ≡ shared f ps p (get_elem? heap p)
unfolding share
share-get_elem? f [] heap p = ground arith
share-get_elem? f (q ∷ ps) heap p =
    share-get_elem? f ps (at_appender (inherit f) q heap) p
    ∙ ap (shared f ps p) (at_appender-get_elem? (inherit f) q p heap)
    ∙ ground arith

-- `setFormatter` of a logger gives the formatter to the logger and to exactly those of its
-- appenders that have none of their own; no other appender and no other logger changes.
pub set_formatter-shared :
    (i : ℕ) (f : Option LogFormatter) (m : Logs) (l : Logger)
    → get_elem? m.loggers i ≡ some l
    → (m' : Logs) × (set_formatter i f m ≡ some m')
      × ((p : ℕ) → get_elem? m'.appenders p ≡ shared f l.appenders p (get_elem? m.appenders p))
      × ((j : ℕ)
          → get_elem? m'.loggers j
            ≡ (if j == i then some (record l { formatter = f }) else get_elem? m.loggers j))
unfolding set_formatter
set_formatter-shared i f m l at = (
  record {
    appenders = share f l.appenders m.appenders;
    loggers = set m.loggers i (record l { formatter = f });
  },
  rw (at, set_formatter) refl,
  share-get_elem? f l.appenders m.appenders,
  get_elem?-set_if m.loggers i l (record l { formatter = f }) at,
)

-- A formatter given as a text that ends in `%%`, with no other percent sign, is refused: nothing
-- changes.
pub set_formatter_text-double_percent :
    (i : ℕ) (t : List ℕ) (m : Logs)
    → All (λ c. (c == b'%') ≡ false) t
    → set_formatter_text i (t ++ double_percent) m ≡ some m
unfolding set_formatter_text
set_formatter_text-double_percent i t m h =
    rw (new_formatter-double_percent t h, set_formatter_text) refl

find_logger-snoc :
    (name : List ℕ) (i : ℕ) (ls : List Logger) (l : Logger)
    → find_logger name i ls ≡ none
    → same_bytes l.name name ≡ true
    → find_logger name i (ls ++ (l ∷ [])) ≡ some (i + length ls)
unfolding find_logger
find_logger-snoc name i [] l h e = rw e (ap some (omega arith))
find_logger-snoc name i (k ∷ ls) l h e = elim (Bool-cases (same_bytes k.name name)) [
  | inl q ↦ let h' = rw q at h in cc h'
  | inr q ↦ rw q (find_logger-snoc name (i + 1) ls l (rw q at h) e ∙ ap some (omega arith))
]

-- `getLogger` of a name gives the same logger when it is called again, and changes nothing then.
pub get_logger-again :
    (name : List ℕ) (m : Logs) → get_logger name (get_logger name m).1 ≡ get_logger name m
unfolding get_logger
get_logger-again name m = elim (Option-cases (find_logger name 0 m.loggers)) [
  | inr (i, q) ↦
      let first : get_logger name m ≡ (i, m) = rw (q, get_logger) refl in
      ap (λ (r : ℕ × Logs). get_logger name r.1) first
  | inl q ↦
      let l : Logger = record {
        name = name;
        level = debug;
        appenders = [];
        formatter = new_formatter default_pattern;
        root = some 0;
      } in
      let made : ℕ × Logs = (length m.loggers, record m { loggers = m.loggers ++ (l ∷ []) }) in
      let first : get_logger name m ≡ made = rw (q, get_logger) refl in
      let again : get_logger name made.1 ≡ made =
        rw (find_logger-snoc name 0 m.loggers l q (same_bytes_refl name), get_logger)
          (ap (λ i. (i, made.1)) (omega arith)) in
      ap (λ (r : ℕ × Logs). get_logger name r.1) first ∙ again ∙ sym first
]
