-- ===== src/Config.antt =====
-- predsx/libs/config/config.go. The environment is a map; `strconv.ParseBool` is written out.
use pred_sx.Base.{
  Bool, true, false, Option, none, some, [], ◌∷◌, String, if◌then◌else◌, append_text,
}
use pred_sx.Base.Dict.{Dict, lookup}
use pred_sx.Base.Names.{contains}
use pred_sx.Base.Text.{codes, Parsed, positive, negative, above, below, malformed, atoi}

-- `Config.Get`, and `GetEnv`
pub get_env : Dict String → String → String → String
get_env env key default_value = elim (lookup key env) [ none ↦ default_value | some value ↦ value ]

-- What `strconv.Atoi` gives without an error.
abbrev number_in : Parsed → Option Parsed
number_in (positive n) = some (positive n)
number_in (negative n) = some (negative n)
number_in above = none
number_in below = none
number_in malformed = none

abbrev or_else : {A : Type 0} → A → Option A → A
or_else default_value none = default_value
or_else default_value (some value) = value

-- `Config.GetInt`, and `GetEnvInt`
pub get_env_int : Dict String → String → Parsed → Parsed
get_env_int env key default_value = elim (lookup key env) [
  | none ↦ default_value
  | some value ↦ or_else default_value (number_in (atoi (codes value)))
]

pub parse_bool : String → Option Bool
parse_bool value =
    if contains value ("1" ∷ "t" ∷ "T" ∷ "true" ∷ "TRUE" ∷ "True" ∷ [])
    then some true
    else (if contains value ("0" ∷ "f" ∷ "F" ∷ "false" ∷ "FALSE" ∷ "False" ∷ [])
        then some false
        else none)

-- `Config.GetBool`, and `GetEnvBool`
pub get_env_bool : Dict String → String → Bool → Bool
unfolding parse_bool
get_env_bool env key default_value = elim (lookup key env) [
  | none ↦ default_value
  | some value ↦ or_else default_value (parse_bool value)
]

pub data Required : Type 0 where
  found : String → Required
  missing : String → Required

-- `Config.Require`
pub require_env : Dict String → String → Required
require_env env key = elim (lookup key env) [
  | none ↦ missing (append_text "required environment variable " (append_text key " is missing"))
  | some value ↦ found value
]
