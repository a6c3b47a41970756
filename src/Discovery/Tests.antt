-- ===== src/Discovery/Tests.antt =====
-- A market with one token.
use pred_sx.Base.{◌≡◌, refl, Option, none, some, List, [], ◌∷◌, String}
use pred_sx.Discovery.{parse_clob_token_ids}

abbrev no_array : String → Option (List String)
no_array raw = none

abbrev as_is : String → Option String
as_is raw = some raw

one_id : parse_clob_token_ids no_array as_is "71" ≡ "71" ∷ []
unfolding parse_clob_token_ids pred_sx.Discovery.non_empty_ids pred_sx.Discovery.ids_in_text
one_id = refl
