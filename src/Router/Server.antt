-- ===== src/Router/Server.antt =====
-- The configuration and the start of the API: `main` of predsx/services/api/main.go, without its
-- routes. `connect` is the error of the client of ClickHouse, `shutdown` that of the shutdown, and a
-- `none` is a nil error. Durations are seconds.
use pred_sx.Base.{ℕ, Option, none, some, String, append_text}
use pred_sx.Base.Dict.{Dict}
use pred_sx.Config.{get_env}

pub record ApiConfig : Type 0 where
  pub port : String
  pub gamma_url : String
  pub data_url : String
  pub clob_url : String

pub api_config : Dict String → ApiConfig
api_config env = record {
  port = get_env env "API_PORT" "8088";
  gamma_url = get_env env "GAMMA_API_BASE_URL" "https://gamma-api.polymarket.com";
  data_url = get_env env "DATA_API_URL" "https://data-api.polymarket.com";
  clob_url = get_env env "CLOB_API_URL" "https://clob.polymarket.com";
}

pub record HttpServer : Type 0 where
  pub addr : String
  pub write_timeout : ℕ
  pub read_timeout : ℕ
  pub idle_timeout : ℕ
  pub max_header_bytes : ℕ

pub http_server : ApiConfig → HttpServer
http_server config = record {
  addr = append_text ":" config.port;
  write_timeout = 15;
  read_timeout = 15;
  idle_timeout = 60;
  max_header_bytes = 65_536;
}

-- What `main` comes to: the error of the client, or the server until the context is over and the
-- error of its shutdown.
pub data Served (E : Type 0) : Type 0 where
  not_connected : E → Served E
  served : HttpServer → Option E → Served E

pub start_api : {E : Type 0} → Dict String → Option E → Option E → Served E
unfolding api_config http_server
start_api env connect shutdown = elim connect [
  | some e ↦ not_connected e
  | none ↦ served (http_server (api_config env)) shutdown
]
