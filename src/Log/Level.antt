-- ===== src/Log/Level.antt =====
-- `LogLevel` of civan/log.h and civan/log.cc, and what depends on a level or a pattern in `Logger`.
use civan.Common.{Chars, codes, equal_chars, ℕ, List, [], ◌∷◌, Bool, leb, if◌then◌else◌, ◌≡◌, refl}
use civan.Log.Formatter.{FormatItem, format_items}

pub data Level : Type 0 where
  unknow debug info warn error fatal : Level

unfoldable pub level_number : Level → ℕ
level_number unknow = 0
level_number debug = 1
level_number info = 2
level_number warn = 3
level_number error = 4
level_number fatal = 5

unfoldable pub level_to_string : Level → Chars
level_to_string unknow = codes "UNKNOWN"
level_to_string debug = codes "DEBUG"
level_to_string info = codes "INFO"
level_to_string warn = codes "WARN"
level_to_string error = codes "ERROR"
level_to_string fatal = codes "FATAL"

-- The tests of `FromString`, in order.
unfoldable pub level_map : List (Level × Chars)
level_map =
    (debug, codes "debug")
    ∷ (info, codes "info")
    ∷ (warn, codes "warn")
    ∷ (error, codes "error")
    ∷ (fatal, codes "fatal")
    ∷ (debug, codes "DEBUG")
    ∷ (info, codes "INFO")
    ∷ (warn, codes "WARN")
    ∷ (error, codes "ERROR")
    ∷ (fatal, codes "FATAL")
    ∷ []

unfoldable pub first_level : Chars → List (Level × Chars) → Level
first_level str [] = unknow
first_level str ((level, v) ∷ rest) = if equal_chars str v then level else first_level str rest

unfoldable pub level_from_string : Chars → Level
unfolding first_level level_map
level_from_string str = first_level str level_map

-- `FromString` gives every level back from its name, also the one that has none.
pub level_from_string-level_to_string :
    (level : Level) → level_from_string (level_to_string level) ≡ level
unfolding level_from_string level_to_string
level_from_string-level_to_string unknow = refl
level_from_string-level_to_string debug = refl
level_from_string-level_to_string info = refl
level_from_string-level_to_string warn = refl
level_from_string-level_to_string error = refl
level_from_string-level_to_string fatal = refl

-- The level and the formatter of a `Logger`.
pub record Logger : Type 0 where
  pub level : Level
  pub formatter : List FormatItem

-- The test of `Logger::log`.
unfoldable pub is_logged : Level → Logger → Bool
unfolding level_number
is_logged level logger = leb (level_number logger.level) (level_number level)

-- `setFormatter` with a pattern: one that is invalid changes nothing.
unfoldable pub set_formatter : Chars → Logger → Logger
unfolding format_items
set_formatter val logger =
    let (items, is_error) = format_items val in
    if is_error then logger else record logger { formatter = items }
