-- ===== src/Rest/Tests.antt =====
-- The theorems about the REST API at a small backend.
use mathlib.Core.Option
use pred_sx.Base.{
  ◌+◌, ◌≤◌, ◌≡◌, refl, Bool, true, not, ◌&&◌, none, some, List, [], ◌∷◌, String, arith,
  if◌then◌else◌, ◌==◌, is_empty, length, take, drop,
}
use pred_sx.Number.Integers.{integers}
use pred_sx.Rest.Example.{small, activity}
use pred_sx.Rest.Params.{get_query, encode_cursor, decode_cursor, decode_cursor-encode_cursor}
use pred_sx.Base.Dict.{Dict, lookup}
use pred_sx.Base.Names.{contains}
use pred_sx.Rest.Scan.{collect_signals}
use pred_sx.Rest.Scan.Complete.{Visits, signals_under, collect_signals-Visits}
use pred_sx.Rest.Batch.{get_batch_prices}
use pred_sx.Rest.Batch.Prices.{named_in, held_price, get_batch_prices-lookup}
use pred_sx.Rest.Proxy.{Upstream}
use pred_sx.Rest.Markets.{get_activity_ranked_markets, query_limit, MarketsPage, markets_page}
use pred_sx.Rest.Markets.Ranked.{ranked, get_activity_ranked_markets-window}
use pred_sx.Rest.Markets.Page.{markets_page-IsFresh}
use pred_sx.Rest.Markets.Fresh.{IsFresh}

get_activity_ranked_markets-window_example :
    get_activity_ranked_markets integers small "polymarket" "" 100 1 1
    ≡ some (take 1 (drop 1 (ranked integers small "polymarket" "" [] activity)))
unfolding query_limit
get_activity_ranked_markets-window_example =
    get_activity_ranked_markets-window integers small "polymarket" "" 100 1 1 activity (omega arith)
      (omega arith) (omega arith) refl

markets_page-IsFresh_example :
    (page : MarketsPage integers small) × (markets_page integers small 100 "polymarket" "" 2 0
      ≡ some page)
    × (length page.items ≤ 2)
    × IsFresh [] page.items
    × (Option.map decode_cursor page.next_cursor ≡ (if page.has_more then some (0 + 2) else none))
markets_page-IsFresh_example =
    markets_page-IsFresh integers small 100 "polymarket" "" 2 0 (omega arith) (omega arith)

decode_cursor-encode_cursor_example : decode_cursor (encode_cursor 250) ≡ 250
decode_cursor-encode_cursor_example = decode_cursor-encode_cursor 250 (omega arith)

-- Redis gives the cursor 7 for the cursor 0, and 0 for any other one.
collect_signals-Visits_example :
    (failed : Bool) × (keys : List String) × Visits integers small "signal:latest:m1:*" 200 0 failed
      keys
    × (collect_signals integers small 3 "m1" "" ≡ some (signals_under integers small keys))
collect_signals-Visits_example =
    collect_signals-Visits integers small 3 "m1" "" (λ cursor. if cursor == 0 then 2 else 1)
      (λ cursor next keys e. ground (arith, e)) (omega arith)

get_batch_prices-lookup_example :
    (length (get_batch_prices integers small (("ids", "m1, m2,,") ∷ [])) ≤ 100)
    × (lookup "m1" (get_batch_prices integers small (("ids", "m1, m2,,") ∷ [])) ≡ (
        if not (is_empty "m1")
          && contains "m1" (named_in integers small (get_query (("ids", "m1, m2,,") ∷ []) "ids" ""))
        then some (held_price integers small "m1")
        else none))
get_batch_prices-lookup_example =
    get_batch_prices-lookup integers small (("ids", "m1, m2,,") ∷ []) "m1"

abbrev upstream : Upstream
upstream = record {
  gamma_url = "https://gamma";
  data_url = "https://data";
  resolve = λ base path. some (λ query. base);
  is_request = λ url. true;
  fetch = λ url. some (200, "text/plain", "");
}

abbrev asked : Dict String
asked = ("wallet", "w") ∷ ("limit", "5") ∷ ("source", "x") ∷ []
