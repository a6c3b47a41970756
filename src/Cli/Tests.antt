-- ===== src/Cli/Tests.antt =====
-- A page and a trade, and the theorem about the commands at them.
use pred_sx.Base.{ℕ, ◌≡◌, false, Option, none, List, [], ◌∷◌, map, String}
use pred_sx.Number.Integers.{ℤ, pos, integers}
use pred_sx.Json.{arr}
use pred_sx.Rest.Backend.{TradeRow}
use pred_sx.Rest.Example.{small}
use pred_sx.Rest.Reply.{items_of}
use pred_sx.Rest.Markets.{MarketsPage}
use pred_sx.Rest.Search.{page_json}
use pred_sx.Rest.Proxy.{Upstream}
use pred_sx.Cli.{problem, table, get_markets, get_trades, markets_command, trades_command}
use pred_sx.Cli.Api.{answers, blank_row, trades, commands-Api}

abbrev none_there : Upstream
none_there = record {
  gamma_url = "";
  data_url = "";
  resolve = λ base path. none;
  is_request = λ url. false;
  fetch = λ url. none;
}

abbrev no_time : String → Option ℕ
no_time s = none

abbrev as_text : List ℕ → String
as_text bytes = "MjA="

abbrev page : MarketsPage integers small
page = record { items = []; next_cursor = none; has_more = false }

abbrev sold : List (TradeRow ℤ)
sold =
    record {
      trade_id = "t1";
      market_id = "m";
      price = pos 3;
      size = pos 5;
      side = "SELL";
      token = "k";
      unix_milli = 70;
    }
    ∷ []

commands-Api_example :
    (markets_command false
        (get_markets (answers integers small (page_json integers small as_text page)) "http://x")
      ≡ problem "not of the type")
    × (trades_command false (
          get_trades
            (answers integers small
              (arr (items_of (trades integers small none_there no_time no_time "m" sold))))
            "http://x"
            "m")
        ≡ table
            ("ID" ∷ "Side" ∷ "Price" ∷ "Size" ∷ [])
            (map (λ r. blank_row integers small r) sold))
commands-Api_example =
    commands-Api integers small none_there no_time no_time as_text page "m" "http://x" sold
