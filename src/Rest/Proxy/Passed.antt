-- ===== src/Rest/Proxy/Passed.antt =====
-- What of a request is passed on to the other server.
use pred_sx.Base.{
  ◌≡◌, refl, ap, ◌∙◌, Bool, true, false, not, ◌&&◌, ◌||◌, inl, inr, none, some, [], ◌∷◌, ◌++◌,
  String, arith, if◌then◌else◌, str_eq, is_empty, Bool-cases,
}
use pred_sx.Base.Dict.{Dict, lookup, delete, lookup-delete}
use pred_sx.Rest.Params.{get_query}
use pred_sx.Rest.Proxy.{
  Upstream, set_value, set_extra, proxy_query, market_extra, on_request, is_supported, proxy_get,
  get_market_positions,
}

lookup-append :
    (j : String) (m n : Dict String)
    → lookup j (m ++ n) ≡ elim (lookup j m) [ none ↦ lookup j n | some v ↦ some v ]
unfolding lookup
lookup-append j [] n = refl
lookup-append j ((k, v) ∷ m) n = ground (arith, lookup-append j m n)

lookup-set_value :
    (k j v : String) (m : Dict String)
    → lookup j (set_value k v m) ≡ (if str_eq k j then some v else lookup j m)
unfolding set_value lookup
lookup-set_value k j v m =
    lookup-append j (delete k m) ((k, v) ∷ []) ∙ ground (arith, lookup-delete k j m)

-- The names that are not passed on.
unfoldable pub is_private : String → Bool
is_private name = str_eq "source" name || str_eq "exchange" name || str_eq "wallet" name

lookup-kept :
    (query : Dict String) (name : String)
    → lookup name (delete "wallet" (delete "exchange" (delete "source" query)))
      ≡ (if is_private name then none else lookup name query)
unfolding is_private
lookup-kept query name =
    let first = lookup-delete "source" name query in
    let second = lookup-delete "exchange" name (delete "source" query) in
    let third = lookup-delete "wallet" name (delete "exchange" (delete "source" query)) in
    ground (arith, first, second, third)

lookup-optional :
    (k v j : String) (m : Dict String)
    → lookup j (if is_empty v then m else set_value k v m)
      ≡ (if str_eq k j && not (is_empty v) then some v else lookup j m)
lookup-optional k v j m = ground (arith, lookup-set_value k j v m)

set_user :
    (wallet : String) (asked : Dict String)
    → set_extra (if is_empty wallet then [] else ("user", wallet) ∷ []) asked
      ≡ (if is_empty wallet then asked else set_value "user" wallet asked)
unfolding set_extra
set_user wallet asked = elim (Bool-cases (is_empty wallet)) [
  | inl nobody ↦ rw nobody refl
  | inr somebody ↦ rw (somebody, set_extra, somebody) refl
]

lookup-proxy_query :
    (id : String) (query : Dict String) (name : String)
    → lookup name (proxy_query (market_extra id query) query) ≡ (
        if str_eq "user" name && not (is_empty (get_query query "wallet" ""))
        then some (get_query query "wallet" "")
        else (if str_eq "market" name && not (is_empty id)
            then some id
            else (if is_private name then none else lookup name query)))
unfolding proxy_query set_extra market_extra
lookup-proxy_query id query name =
    let kept = delete "wallet" (delete "exchange" (delete "source" query)) in
    let base = lookup-kept query name in
    let with_market = lookup-optional "market" id name kept in
    let asked = if is_empty id then kept else set_value "market" id kept in
    let with_user = lookup-optional "user" (get_query query "wallet" "") name asked in
    ap (λ q. lookup name q) (set_user (get_query query "wallet" "") asked)
    ∙ with_user
    ∙ ground (arith, with_market, base)

-- A request for the positions on a market that is answered at all by the other server is sent to it
-- with the market, with the wallet as the user where there is one, without source, exchange and
-- wallet, and with everything else as it came.
pub get_market_positions-passed :
    {F : Type 0} (u : Upstream) (id : String) (query : Dict String) (url : Dict String → String)
    (name : String)
    → is_supported query ≡ true
    → is_empty u.data_url ≡ false
    → u.resolve u.data_url "/market-positions" ≡ some url
    → (passed : Dict String) × (get_market_positions {F = F} u id query ≡ on_request u (url passed))
      × (lookup name passed ≡ (
          if str_eq "user" name && not (is_empty (get_query query "wallet" ""))
          then some (get_query query "wallet" "")
          else (if str_eq "market" name && not (is_empty id)
              then some id
              else (if is_private name then none else lookup name query))))
unfolding get_market_positions proxy_get
get_market_positions-passed u id query url name supported configured resolved = (
  proxy_query (market_extra id query) query,
  rw (get_market_positions, proxy_get, supported, configured, resolved) refl,
  lookup-proxy_query id query name,
)
