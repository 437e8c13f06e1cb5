-- ===== src/Log/Level.antt =====
-- LogLevel.
use server_demo.Common.{ℕ, ◌≡◌, refl, Bool, List, ltb, if◌then◌else◌}
use server_demo.Http.Bytes.{codes, same_bytes}

-- LogLevel::Level, and its values.
pub data Level : Type 0 where
  unknow debug info warn error fatal : Level

abbrev pub value : Level → ℕ
value unknow = 0
value debug = 1
value info = 2
value warn = 3
value error = 4
value fatal = 5

-- level < m_level
abbrev pub below : Level → Level → Bool
below a b = ltb (value a) (value b)

-- LogLevel::ToString
unfoldable pub to_string : Level → List ℕ
to_string debug = codes "DEBUG"
to_string info = codes "INFO"
to_string warn = codes "WARN"
to_string error = codes "ERROR"
to_string fatal = codes "FATAL"
to_string unknow = codes "UNKNOW"

-- LogLevel::FromString
unfoldable pub from_string : List ℕ → Level
unfolding same_bytes
from_string str =
    if same_bytes str (codes "debug")
    then debug
    else if same_bytes str (codes "info")
    then info
    else if same_bytes str (codes "warn")
    then warn
    else if same_bytes str (codes "error")
    then error
    else if same_bytes str (codes "fatal")
    then fatal
    else if same_bytes str (codes "DEBUG")
    then debug
    else if same_bytes str (codes "INFO")
    then info
    else if same_bytes str (codes "WARN")
    then warn
    else if same_bytes str (codes "ERROR")
    then error
    else if same_bytes str (codes "FATAL")
    then fatal
    else unknow

-- A level that is printed is read back.
from_string-to_string : (l : Level) → from_string (to_string l) ≡ l
unfolding from_string to_string
from_string-to_string unknow = refl
from_string-to_string debug = refl
from_string-to_string info = refl
from_string-to_string warn = refl
from_string-to_string error = refl
from_string-to_string fatal = refl
