-- ===== src/Service.antt =====
-- How a service runs: predsx/libs/service/service.go.
-- Parameters: how the function of the service and the server of the metrics end. A `none` of type
-- `Option E` is a nil error; the logs are the effects.
use pred_sx.Base.{Option, none, some, List, [], ◌∷◌, ◌++◌, String}
use pred_sx.Base.Dict.{Dict}
use pred_sx.Base.Text.{Parsed, positive}
use pred_sx.Config.{get_env, get_env_int}

pub record ServiceConfig : Type 0 where
  pub name : String
  pub log_level : String
  pub metrics_port : Parsed

-- `NewBaseService`
pub new_base_service : Dict String → String → ServiceConfig
new_base_service env name = record {
  name = name;
  log_level = get_env env "LOG_LEVEL" "info";
  metrics_port = get_env_int env "METRICS_PORT" (positive 8_080);
}

-- What comes first in the `select`: the end of the function, or a signal.
pub data Ending (E : Type 0) : Type 0 where
  returned : Option E → Ending E
  signalled : Ending E

pub data LogEntry (E : Type 0) : Type 0 where
  starting : Parsed → LogEntry E
  service_failed shutdown_failed : E → LogEntry E
  shutting_down stopped : LogEntry E

module _ {E : Type 0} where
  pub on_ending : Ending E → List (LogEntry E)
  on_ending (returned none) = []
  on_ending (returned (some e)) = service_failed e ∷ []
  on_ending signalled = shutting_down ∷ []

  pub on_shutdown : Option E → List (LogEntry E)
  on_shutdown none = []
  on_shutdown (some e) = shutdown_failed e ∷ []

  -- `Run`: the shutdown of the metrics follows either ending.
  pub run_service : ServiceConfig → Ending E → Option E → List (LogEntry E)
  unfolding on_ending on_shutdown
  run_service config ending shutdown =
      starting config.metrics_port ∷ (on_ending ending ++ on_shutdown shutdown ++ stopped ∷ [])
