-- ===== src/Storage/Schema/Insert/Tests.antt =====
-- The theorem about the statements at a trade, with a database that has a table of its own.
use pred_sx.Base.{ℕ, ◌≡◌, refl, Bool, true, false, inl, none, List, [], ◌∷◌, String}
use pred_sx.Base.Dict.{lookup}
use pred_sx.Number.Integers.{ℤ, pos}
use pred_sx.Event.{TradeEvent}
use pred_sx.Storage.Schema.{Database, text_type, ensure_schemas}
use pred_sx.Storage.Schema.Insert.{
  Statement, Value, text, float, time, statement, trade, insert_trade, admits_statement,
}
use pred_sx.Storage.Schema.Insert.Accepted.{admits_statement-ensure_schemas}

abbrev database : Database
database = ("users", ("id", text_type) ∷ []) ∷ []

abbrev a_trade : TradeEvent ℤ
a_trade = record {
  trade_id = "1";
  token = "t";
  market_id = "m";
  price = pos 4;
  size = pos 2;
  side = "buy";
  timestamp = 70;
  version = "v1.0.0";
}

abbrev no_json : List String → String
no_json texts = "[]"

admits_statement-ensure_schemas_example :
    admits_statement (ensure_schemas database) (statement no_json 70 (trade a_trade)) ≡ true
unfolding lookup statement insert_trade
admits_statement-ensure_schemas_example =
    admits_statement-ensure_schemas no_json 70 (trade a_trade) database (inl refl)

-- A price that is a text does not fit.
abbrev misfit : Statement ℤ
misfit = record {
  table = "trades";
  columns = "trade_id" ∷ "price" ∷ [];
  values = text "1" ∷ text "4" ∷ [];
}

admits_statement-misfit : admits_statement (ensure_schemas database) misfit ≡ false
unfolding admits_statement pred_sx.Storage.Schema.Insert.fits pred_sx.Storage.Schema.Insert.admits
    pred_sx.Storage.Schema.Insert.admits_at ensure_schemas pred_sx.Storage.Schema.create_all
    pred_sx.Storage.Schema.create pred_sx.Storage.Schema.tables lookup pred_sx.Base.Dict.insert
admits_statement-misfit = refl
