-- ===== src/Rest/Proxy.antt =====
-- The requests that the API passes on: `proxyGET`, `GetEvents`, `GetPositions`,
-- `GetClosedPositions` and `GetMarketPositions` of predsx/services/api/handlers/rest.go. A query
-- string is the list of its values, in which a name can stand more than once. The package net/url
-- and the other server are parameters.
pub mod Passed
use pred_sx.Base.{
  ℕ, Bool, true, false, not, ◌&&◌, Option, none, some, List, [], ◌∷◌, ◌++◌, String, if◌then◌else◌,
  str_eq, is_empty,
}
use pred_sx.Base.Dict.{Dict, lookup, delete}
use pred_sx.Rest.Params.{get_query}
use pred_sx.Rest.Reply.{Reply, failed, forwarded}

pub record Upstream : Type 0 where
  pub gamma_url : String
  pub data_url : String
  -- The URL of a path at a base, if the base is a URL, with a query.
  pub resolve : String → String → Option (Dict String → String)
  pub is_request : String → Bool
  -- The status, the content type and the body of the answer.
  pub fetch : String → Option (ℕ × String × String)

-- `q.Set(key, value)`
pub set_value : String → String → Dict String → Dict String
set_value key value query = delete key query ++ (key, value) ∷ []

pub set_extra : Dict String → Dict String → Dict String
unfolding set_value
set_extra [] query = query
set_extra ((key, value) ∷ extra) query =
    set_extra extra (if is_empty value then query else set_value key value query)

pub proxy_query : Dict String → Dict String → Dict String
unfolding set_extra
proxy_query extra query =
    set_extra extra (delete "wallet" (delete "exchange" (delete "source" query)))

abbrev pub user_extra : Dict String → Dict String
user_extra query =
    let wallet = get_query query "wallet" "" in
    if is_empty wallet then [] else ("user", wallet) ∷ []

pub market_extra : String → Dict String → Dict String
market_extra id query = ("market", id) ∷ user_extra query

abbrev pub is_supported : Dict String → Bool
is_supported query = str_eq (get_query query "exchange" "polymarket") "polymarket"

abbrev pub unsupported : {F : Type 0} → Reply F
unsupported = failed 400 "unsupported exchange"

module _ {F : Type 0} (u : Upstream) where
  pub on_request : String → Reply F
  on_request url = elim (u.is_request url) [
    | false ↦ failed 502 "failed to build upstream request"
    | true ↦ elim (u.fetch url) [
      | none ↦ failed 502 "upstream request failed"
      | some (status, kind, body) ↦ forwarded status kind body
    ]
  ]

  -- `proxyGET`
  pub proxy_get : String → String → Dict String → Dict String → Reply F
  unfolding proxy_query on_request
  proxy_get base_url path extra query =
      if is_empty base_url
      then failed 502 "upstream not configured"
      else (elim (u.resolve base_url path) [
        | none ↦ failed 502 "invalid upstream url"
        | some url ↦ on_request (url (proxy_query extra query))
      ])

  pub get_events : Dict String → Reply F
  unfolding proxy_get
  get_events query =
      if not (is_supported query) then unsupported else proxy_get u.gamma_url "/events" [] query

  -- `GetPositions` and `GetClosedPositions`, which differ in the path.
  pub positions_at : String → Dict String → Reply F
  unfolding proxy_get
  positions_at path query =
      if not (is_supported query)
      then unsupported
      else (if is_empty (get_query query "wallet" "") && is_empty (get_query query "user" "")
          then failed 400 "wallet is required"
          else proxy_get u.data_url path (user_extra query) query)

  pub get_positions : Dict String → Reply F
  unfolding positions_at
  get_positions query = positions_at "/positions" query

  pub get_closed_positions : Dict String → Reply F
  unfolding positions_at
  get_closed_positions query = positions_at "/closed-positions" query

  pub get_market_positions : String → Dict String → Reply F
  unfolding proxy_get market_extra
  get_market_positions id query =
      if not (is_supported query)
      then unsupported
      else proxy_get u.data_url "/market-positions" (market_extra id query) query
