-- ===== src/Middleware.antt =====
-- predsx/services/api/middleware: `CORS` (cors.go), `SecurityHeaders` (securityheaders.go), `Auth`
-- and `DebugAuth` (auth.go). A middleware answers itself or passes the request on; either way it has
-- set some headers of the answer.
pub mod Origins
mod Tests
use text.Mathlib.Text.{starts_with}
use pred_sx.Base.{
  ℕ, Bool, true, false, not, ◌&&◌, ◌||◌, Option, none, some, List, [], ◌∷◌, ◌++◌, String,
  if◌then◌else◌, str_eq, is_empty,
}
use pred_sx.Base.Dict.{Dict}
use pred_sx.Base.Names.{contains}
use pred_sx.Base.Split.{split, trim_space}
use pred_sx.Http.{Request, header, text_at}

-- What comes of a request at a middleware: it is passed on, or answered with a status and a text.
pub data Verdict : Type 0 where
  passed_on : Verdict
  answered : ℕ → String → Verdict

-- The texts that are left when the blanks around them are cut.
pub origins_of : List String → List String
origins_of [] = []
origins_of (raw ∷ parts) =
    let rest = origins_of parts in if is_empty (trim_space raw) then rest else trim_space raw ∷ rest

-- `ALLOWED_ORIGINS`, or its default
abbrev pub origins_setting : String → String
origins_setting raw = if is_empty raw then "http://localhost:3000" else raw

-- The origins that are allowed; 44 is the comma.
pub allowed_origins : String → List String
unfolding origins_of
allowed_origins raw = origins_of (split 44 (origins_setting raw))

pub origin_headers : String → String → Dict String
unfolding allowed_origins
origin_headers raw origin =
    if str_eq (origins_setting raw) "*"
    then ("Access-Control-Allow-Origin", "*") ∷ []
    else (if is_empty origin
        then []
        else (if contains origin (allowed_origins raw)
            then ("Access-Control-Allow-Origin", origin) ∷ ("Vary", "Origin") ∷ []
            else []))

-- `CORS`, with the text of `ALLOWED_ORIGINS`
unfoldable pub cors : String → Request → Dict String × Verdict
unfolding origin_headers
cors raw r = (
  origin_headers raw (header r "Origin")
      ++ ("Access-Control-Allow-Methods", "GET,OPTIONS")
        ∷ ("Access-Control-Allow-Headers", "Content-Type, Authorization, X-Debug-Token")
        ∷ [],
  if str_eq r.method "OPTIONS" then answered 204 "" else passed_on,
)

-- `SecurityHeaders`
pub security_headers : Dict String
security_headers =
    ("X-Content-Type-Options", "nosniff")
    ∷ ("X-Frame-Options", "DENY")
    ∷ ("X-XSS-Protection", "1; mode=block")
    ∷ ("Referrer-Policy", "strict-origin-when-cross-origin")
    ∷ ("Content-Security-Policy", "default-src 'none'")
    ∷ []

-- `Auth`
pub auth : Request → Verdict
auth r =
    if is_empty (header r "Authorization") || not (starts_with (header r "Authorization") "Bearer ")
    then answered 401 "Unauthorized"
    else passed_on

-- The token of a request to `DebugAuth`.
pub provided : Request → String
provided r =
    if is_empty (header r "X-Debug-Token")
    then text_at "debug_token" r.query
    else header r "X-Debug-Token"

-- `DebugAuth`, with the text of `DEBUG_TOKEN`
unfoldable pub debug_auth : String → Request → Verdict
unfolding provided
debug_auth token r =
    if is_empty token
    then answered 403 "debug endpoints disabled"
    else (if str_eq (provided r) token then passed_on else answered 403 "forbidden")
