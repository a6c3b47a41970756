-- ===== src/Cli/Api.antt =====
-- The command line at the answers of the API.
use pred_sx.Base.{ℕ, ◌≡◌, refl, ap, false, Option, some, List, [], ◌∷◌, map, String}
use pred_sx.Number.{Arith}
use pred_sx.Json.{Json, Members, arr, field, find}
use pred_sx.Rest.Backend.{Backend, TradeRow}
use pred_sx.Rest.Reply.{items_of}
use pred_sx.Rest.Market.{with_members}
use pred_sx.Rest.Markets.{MarketsPage}
use pred_sx.Rest.Search.{page_json}
use pred_sx.Rest.History.{trade_members, trade_json}
use pred_sx.Rest.Proxy.{Upstream}
use pred_sx.Cli.{
  Response, problem, table, call, get_markets, get_trades, cell, trade_row, output, markets_command,
  trades_command, list_in,
}

module _ {F : Type 0} (a : Arith F) (b : Backend F) where
  -- An answer of the API with status 200.
  abbrev pub answers : Json F → String → Option (Response F)
  answers v url = some (record { status = 200; status_text = "200 OK"; body = some v })

  -- The row of a trade in the table.
  abbrev pub blank_row : TradeRow F → List String
  blank_row r = r.trade_id ∷ r.side ∷ "" ∷ "" ∷ []

  module _ (u : Upstream) (rfc3339 rfc3339_nano : String → Option ℕ) where
    abbrev pub trades : String → List (TradeRow F) → List (Json F)
    trades id rows = map (λ r. trade_json a b u rfc3339 rfc3339_nano id r) rows

    trade_rows :
        (id : String) (rows : List (TradeRow F))
        → (ms : List (Members F)) × (list_in (arr (items_of (trades id rows))) ≡ some ms)
          × (map (λ m. trade_row m) ms ≡ map (λ r. blank_row r) rows)
    unfolding trade_json trade_members trade_row cell with_members field find
    trade_rows id [] = ([], refl, refl)
    trade_rows id (r ∷ rows) =
        let (ms, read, blank) = trade_rows id rows in
        (
          trade_members a b u rfc3339 rfc3339_nano id r ∷ ms,
          rw read refl,
          ap (λ rest. blank_row r ∷ rest) blank,
        )

    -- Without the flag `--json`: at any page of markets that the API answers, the command for the
    -- markets prints an error, since the page is no array; at any trades that the API answers, the
    -- command for the trades prints a table in which the columns for the price and the size are blank, since the API writes numbers.
    pub commands-Api :
        (text_of : List ℕ → String) (page : MarketsPage a b) (id base_url : String)
        (rows : List (TradeRow F))
        → (markets_command false (get_markets (answers (page_json a b text_of page)) base_url)
            ≡ problem "not of the type")
          × (trades_command false
                (get_trades (answers (arr (items_of (trades id rows)))) base_url id)
              ≡ table ("ID" ∷ "Side" ∷ "Price" ∷ "Size" ∷ []) (map (λ r. blank_row r) rows))
    unfolding page_json call get_markets get_trades markets_command trades_command output
    commands-Api text_of page id base_url rows =
        let (ms, read, blank) = trade_rows id rows in
        (
          refl,
          rw (trades_command, get_trades, call, read)
              (ap (λ rs. table ("ID" ∷ "Side" ∷ "Price" ∷ "Size" ∷ []) rs) blank),
        )
