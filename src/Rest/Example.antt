-- ===== src/Rest/Example.antt =====
-- A small backend for the tests.
use pred_sx.Base.{true, Option, none, some, List, [], ◌∷◌, String, if◌then◌else◌, str_eq, ◌==◌}
use pred_sx.Number.Integers.{ℤ, pos}
use pred_sx.Json.{end, member, num, arr, nil}
use pred_sx.Rest.Backend.{Backend, MetadataRow, Arg, word}

abbrev pub row_of : String → MetadataRow
row_of id = record {
  market_id = id;
  slug = "s";
  title = "";
  question = "Will it?";
  condition_id = "0xc";
  status = "ACTIVE";
  exchange = "polymarket";
  event_id = "e";
  outcomes = "";
  raw = "";
  start_time = 0;
  end_time = 5;
}

-- The market that is asked for; without one, two markets.
abbrev pub known_rows : List Arg → List (Option MetadataRow)
known_rows (word id ∷ []) = some (row_of id) ∷ []
known_rows _ = some (row_of "m2") ∷ none ∷ some (row_of "m3") ∷ []

abbrev pub activity : List (Option String)
activity = some "m1" ∷ none ∷ some "m2" ∷ some "m1" ∷ some "m3" ∷ []

abbrev pub small : Backend ℤ
small = record {
  get = λ key. if str_eq key "live:price:m1" then some "{}" else none;
  is_member = λ id. some true;
  exists_key = λ key. some true;
  scan = λ pattern count cursor.
      some (if cursor == 0 then ("live:price:m1" ∷ [], 7) else ("k" ∷ [], 0));
  decode_object = λ text. some (some (member "price" (num (pos 0)) end));
  decode_strings = λ text. none;
  decode_json = λ text. some (arr nil);
  marshal = λ v. some "[]";
  activity_rows = λ n. some activity;
  metadata_rows = λ query args. some (known_rows args);
  trade_rows = λ query args. some [];
  history_rows = λ query args. some [];
  candle_rows = λ query args. some [];
  stats_rows = λ query args. some [];
  top_rows = λ query args. some [];
  signal_rows = λ query args. none;
  data_rows = λ query args. none;
  equal_fold = λ x y. str_eq x y;
  to_lower = λ x. x;
  to_upper = λ x. x;
  format_time = λ t. "2026";
  format_nano = λ t. "2026";
  scan_float = λ text. pos 0;
}
