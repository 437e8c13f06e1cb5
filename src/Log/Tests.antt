-- ===== src/Log/Tests.antt =====
-- Patterns, and a process with two loggers.
use server_demo.Common.{ℕ, ◌≡◌, refl, Bool, true, false, Option, none, some, List, [], ◌∷◌, map}
use server_demo.Http.Bytes.{codes}
use server_demo.Log.Level.{debug}
use server_demo.Log.Pattern.{
  LogFormatter, new_formatter, read_pattern, make_items, message, level, date_time, scan_name,
  scan_fmt, find_kind,
}
use server_demo.Log.Logger.{LogAppender, Logger, Logs}
use server_demo.Log.Scan.{new_formatter_total}
use server_demo.Log.RoundTrip.{Piece, text, short, braced, print, item_of, new_formatter-print}

abbrev formatter_of : Option LogFormatter → LogFormatter
formatter_of none = record { pattern = []; items = []; error = true }
formatter_of (some f) = f

-- A pattern with an open brace.
unclosed_pattern : (formatter_of (new_formatter (codes "a%d{%Y"))).error ≡ true
unfolding new_formatter read_pattern make_items scan_name scan_fmt find_kind
unclosed_pattern = refl

abbrev pieces : List Piece
pieces =
    braced date_time (codes "%H")
    ∷ text (codes " [")
    ∷ short level
    ∷ text (codes "] ")
    ∷ short message
    ∷ []

new_formatter-print_example :
    new_formatter (print pieces)
    ≡ some (record { pattern = print pieces; items = map item_of pieces; error = false })
unfolding print
new_formatter-print_example = new_formatter-print pieces (
  (refl, (refl, tt)),
  (refl, refl, (refl, (refl, tt)), (refl, (refl, refl, (refl, (refl, tt)), (refl, tt)))),
)

new_formatter_total_example :
    (f : LogFormatter) × (new_formatter (codes "%m%%") ≡ some f) × (f.pattern ≡ codes "%m%%")
new_formatter_total_example = new_formatter_total (codes "%m%%")

abbrev appender : Bool → LogAppender
appender own = record { level = debug; has_formatter = own; formatter = none }

abbrev logger : List ℕ → List ℕ → Option ℕ → Logger
logger name appenders root = record {
  name = name;
  level = debug;
  appenders = appenders;
  formatter = none;
  root = root;
}

abbrev logs : Logs
logs = record {
  appenders = appender false ∷ appender true ∷ appender false ∷ [];
  loggers =
      logger (codes "root") (0 ∷ []) none ∷ logger (codes "system") (1 ∷ 2 ∷ []) (some 0) ∷ [];
}
