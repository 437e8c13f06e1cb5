-- ===== src/Log/Logger.antt =====
-- Logger, LogAppender and LoggerManager. Appenders and loggers are shared objects: a pointer is an
-- index into their lists. A formatter does not change once it is built.
use server_demo.Common.{
  ℕ, zero, suc, ◌+◌, Bool, true, false, Option, none, some, List, [], ◌∷◌, ◌++◌, ◌==◌, get_elem?,
  set, length, if◌then◌else◌,
}
use server_demo.Http.Bytes.{codes, same_bytes}
use server_demo.Log.Level.{Level, debug, below}
use server_demo.Log.Pattern.{LogFormatter, new_formatter}

pub record LogAppender : Type 0 where
  pub level : Level
  pub has_formatter : Bool
  pub formatter : Option LogFormatter

pub record Logger : Type 0 where
  pub name : List ℕ
  pub level : Level
  pub appenders : List ℕ
  pub formatter : Option LogFormatter
  pub root : Option ℕ

-- The root logger is the first one. `m_loggers` maps the name of each logger to it.
pub record Logs : Type 0 where
  pub appenders : List LogAppender
  pub loggers : List Logger

abbrev pub put_logger : ℕ → Logger → Logs → Logs
put_logger i l m = record m { loggers = set m.loggers i l }

-- The loop of Logger::setFormatter, over the appenders of the logger.
abbrev pub inherit : Option LogFormatter → LogAppender → LogAppender
inherit f a = if a.has_formatter then a else record a { formatter = f }

abbrev pub at_appender : (LogAppender → LogAppender) → ℕ → List LogAppender → List LogAppender
at_appender f p heap = elim (get_elem? heap p) [ none ↦ heap | some a ↦ set heap p (f a) ]

unfoldable pub share : Option LogFormatter → List ℕ → List LogAppender → List LogAppender
share f [] heap = heap
share f (p ∷ ps) heap = share f ps (at_appender (inherit f) p heap)

-- Logger::setFormatter(LogFormatter::ptr); `none` is a logger that is not there.
unfoldable pub set_formatter : ℕ → Option LogFormatter → Logs → Option Logs
unfolding share
set_formatter i f m = elim (get_elem? m.loggers i) [
  | none ↦ none
  | some l ↦ some (record {
    appenders = share f l.appenders m.appenders;
    loggers = set m.loggers i (record l { formatter = f });
  })
]

-- Logger::setFormatter(const std::string&)
unfoldable pub set_formatter_text : ℕ → List ℕ → Logs → Option Logs
unfolding set_formatter
set_formatter_text i val m = elim (new_formatter val) [
  | none ↦ none
  | some f ↦ if f.error then some m else set_formatter i (some f) m
]

-- Logger::addAppender
abbrev pub adopt : Option LogFormatter → LogAppender → LogAppender
adopt f a = elim a.formatter [ none ↦ record a { formatter = f } | some own ↦ a ]

unfoldable pub add_appender : ℕ → ℕ → Logs → Option Logs
add_appender i p m = elim (get_elem? m.loggers i) [
  | none ↦ none
  | some l ↦ some (record {
    appenders = at_appender (adopt l.formatter) p m.appenders;
    loggers = set m.loggers i (record l { appenders = l.appenders ++ (p ∷ []) });
  })
]

-- Logger::delAppender, clearAppenders
abbrev pub erase : ℕ → List ℕ → List ℕ
erase p [] = []
erase p (q ∷ ps) = let rest = erase p ps in if q == p then ps else q ∷ rest

unfoldable pub del_appender : ℕ → ℕ → Logs → Option Logs
del_appender i p m = elim (get_elem? m.loggers i) [
  | none ↦ none
  | some l ↦ some (put_logger i (record l { appenders = erase p l.appenders }) m)
]

unfoldable pub clear_appenders : ℕ → Logs → Option Logs
clear_appenders i m = elim (get_elem? m.loggers i) [
  | none ↦ none
  | some l ↦ some (put_logger i (record l { appenders = [] }) m)
]

-- LogAppender::setFormatter
unfoldable pub set_own_formatter : ℕ → Option LogFormatter → Logs → Logs
set_own_formatter p f m = record m {
  appenders =
      at_appender
        (λ a. record a { formatter = f; has_formatter = elim f [ none ↦ false | some g ↦ true ] }) p
        m.appenders;
}

-- The appenders of a list that write an event of the level.
abbrev pub writes : Level → List LogAppender → List ℕ → List ℕ
writes level heap [] = []
writes level heap (p ∷ ps) = elim (get_elem? heap p) [
  | none ↦ writes level heap ps
  | some a ↦ if below level a.level then writes level heap ps else p ∷ writes level heap ps
]

-- Logger::log: the appenders that write the event, in order. A logger without appenders hands the
-- event to its root; the first argument bounds how often.
unfoldable pub log : ℕ → ℕ → Level → Logs → Option (List ℕ)
log zero i level m = none
log (suc fuel) i level m = elim (get_elem? m.loggers i) [
  | none ↦ none
  | some l ↦
      let up : Option (List ℕ) = elim l.root [ none ↦ some [] | some r ↦ log fuel r level m ] in
      if below level l.level
      then some []
      else elim l.appenders [ [] ↦ up | p ∷ ps ↦ some (writes level m.appenders (p ∷ ps)) ]
]

-- The pattern of a new logger.
abbrev pub default_pattern : List ℕ
default_pattern = codes "%d{%Y-%m-%d %H:%M:%S}%T%t%T%N%T%F%T[%p]%T[%c]%T<%f:%l>%T%m%n"

-- m_loggers.find, from the pointer `i` on.
unfoldable pub find_logger : List ℕ → ℕ → List Logger → Option ℕ
unfolding same_bytes
find_logger name i [] = none
find_logger name i (l ∷ ls) =
    let rest = find_logger name (i + 1) ls in if same_bytes l.name name then some i else rest

-- LoggerManager::getLogger
unfoldable pub get_logger : List ℕ → Logs → ℕ × Logs
unfolding find_logger
get_logger name m = elim (find_logger name 0 m.loggers) [
  | some i ↦ (i, m)
  | none ↦ (
    length m.loggers,
    record m {
      loggers =
          m.loggers
          ++ (record {
            name = name;
            level = debug;
            appenders = [];
            formatter = new_formatter default_pattern;
            root = some 0;
          }
              ∷ []);
    },
  )
]
