-- ===== src/Middleware/Origins.antt =====
-- Which origins may read an answer.
use pred_sx.Base.{
  ◌≡◌, refl, ap, true, not, ◌&&◌, none, some, List, [], ◌∷◌, ◌++◌, map, String, arith,
  if◌then◌else◌, str_eq, is_empty, eq_iff,
}
use pred_sx.Base.Dict.{Dict, lookup}
use pred_sx.Base.Names.{contains}
use pred_sx.Base.Split.{split, trim_space}
use pred_sx.Http.{Request, header}
use pred_sx.Middleware.{origins_of, origins_setting, allowed_origins, origin_headers, cors}

-- A text is an allowed origin just when it is not empty and one of the parts with the blanks cut.
contains-origins_of :
    (origin : String) (parts : List String)
    → contains origin (origins_of parts)
      ≡ (not (is_empty origin) && contains origin (map trim_space parts))
unfolding origins_of contains
contains-origins_of origin [] = ground arith
contains-origins_of origin (raw ∷ parts) =
    let later = contains-origins_of origin parts in
    let same : str_eq (trim_space raw) origin ≡ true → is_empty (trim_space raw) ≡ is_empty origin =
      λ e. ap is_empty ((eq_iff (trim_space raw) origin).0 e) in
    ground (arith, later, same)

lookup-origin_headers :
    (raw origin : String) (others : Dict String)
    → lookup "Access-Control-Allow-Origin" others ≡ none
    → lookup "Access-Control-Allow-Origin" (origin_headers raw origin ++ others) ≡ (
        if str_eq (origins_setting raw) "*"
        then some "*"
        else (if not (is_empty origin)
              && contains origin (map trim_space (split 44 (origins_setting raw)))
            then some origin
            else none))
unfolding origin_headers allowed_origins lookup
lookup-origin_headers raw origin others h =
    let listed = contains-origins_of origin (split 44 (origins_setting raw)) in
    ground (arith, listed, h)

-- The answer to a request names the origin that may read it just when every origin may, since the
-- setting is "*", or the origin of the request is not empty and stands in the list of the setting,
-- without the blanks around it; then it names the "*" or this origin.
pub lookup-cors :
    (raw : String) (r : Request)
    → lookup "Access-Control-Allow-Origin" (cors raw r).0 ≡ (
        if str_eq (origins_setting raw) "*"
        then some "*"
        else (if not (is_empty (header r "Origin"))
              && contains (header r "Origin") (map trim_space (split 44 (origins_setting raw)))
            then some (header r "Origin")
            else none))
unfolding cors lookup
lookup-cors raw r = lookup-origin_headers raw (header r "Origin") _ refl
