-- ===== src/Log/Level.antt =====
-- `Logger::levelFromString` of log/Logger.cc.
pub mod Names
use chassis_host.Common.{
  ℕ, zero, suc, ◌+◌, ◌-◌, Bool, true, false, ◌&&◌, Option, none, some, List, [], ◌∷◌, length,
  get_or, take, ltb, leb, ◌==◌, if◌then◌else◌,
}

pub data LogLevel : Type 0 where
  trace : LogLevel
  debug : LogLevel
  info : LogLevel
  warn : LogLevel
  error : LogLevel
  fatal : LogLevel
  num_log_levels : LogLevel

-- `kLogLevelNames`, with the levels they belong to.
abbrev pub level_names : List (LogLevel × List ℕ)
level_names =
    (trace, 84 ∷ 82 ∷ 65 ∷ 67 ∷ 69 ∷ 32 ∷ [])
    ∷ (debug, 68 ∷ 69 ∷ 66 ∷ 85 ∷ 71 ∷ 32 ∷ [])
    ∷ (info, 73 ∷ 78 ∷ 70 ∷ 79 ∷ 32 ∷ 32 ∷ [])
    ∷ (warn, 87 ∷ 65 ∷ 82 ∷ 78 ∷ 32 ∷ 32 ∷ [])
    ∷ (error, 69 ∷ 82 ∷ 82 ∷ 79 ∷ 82 ∷ 32 ∷ [])
    ∷ (fatal, 70 ∷ 65 ∷ 84 ∷ 65 ∷ 76 ∷ 32 ∷ [])
    ∷ []

-- `while (len > 0 && name[len - 1] == ' ') --len`.
abbrev pub trimmed : List ℕ → ℕ → ℕ
trimmed name zero = zero
trimmed name (suc len) =
    let rest = trimmed name len in if get_or name len 0 == 32 then rest else suc len

abbrev pub lower : ℕ → ℕ
lower c = if leb 65 c && leb c 90 then c + 32 else c

-- `strncasecmp(a, b, len) == 0` on C strings, which end in a 0, in the C locale.
abbrev pub same_prefix : ℕ → List ℕ → List ℕ → Bool
same_prefix zero xs ys = true
same_prefix (suc n) [] [] = true
same_prefix (suc n) [] (y ∷ ys) = false
same_prefix (suc n) (x ∷ xs) [] = false
same_prefix (suc n) (x ∷ xs) (y ∷ ys) = (lower x == lower y) && same_prefix n xs ys

unfoldable pub is_name : List ℕ → List ℕ → Bool
is_name name level_name =
    let len = trimmed level_name (length level_name) in
    same_prefix len name level_name && (length name == len)

abbrev pub find_level : List (LogLevel × List ℕ) → List ℕ → LogLevel
find_level [] name = num_log_levels
find_level ((level, level_name) ∷ more) name =
    if is_name name level_name then level else find_level more name

-- `none` is a null pointer.
unfoldable pub level_from_string : Option (List ℕ) → LogLevel
level_from_string none = num_log_levels
level_from_string (some name) = find_level level_names name
