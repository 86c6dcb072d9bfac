-- ===== src/Host/Tests.antt =====
-- A program that builds a host, after the demo, and the theorems at concrete inputs.
use minet_core.Prelude.{
  ℕ, suc, List, [], ◌∷◌, none, some, Bool, true, false, ◌≡◌, refl, arith, codes, equal,
}
use minet_core.Prelude.Map.{find, insert}
use minet_core.Prelude.Result.{Result}
use minet_core.Http.Status
use minet_core.Server.Config.{Json, load_server_config}
use minet_core.Logging.{
  LogJson, Spdlog, load_logger_config, parse_specification, read_sinks, read_loggers, get_logger,
  init, init_sinks,
}
use minet_core.Dispatcher.{register_handler, register_error_handler}
use minet_core.Dispatcher.Handlers.{bind, error_function, register_default_handlers}
use minet_core.Path.{clean_path}
use minet_core.Host.{
  Run, returned, ◌>>=◌, Outside, Call, use_app_settings, get, error, logger, create, State, WebHost,
  load_configs, set_up, initialize_components, use_settings, route, route_error, take_named,
  perform, perform_all, build,
}
use minet_core.Host.Holds.{Holds}
use minet_core.Host.Settings.{CannotUse}
use minet_core.Host.Ready.{LibraryThrows}
use minet_core.Host.Kept.{HasBadRoute, Serves, build-perform_all-Serves}
use minet_core.Host.Protocol.{Status, Throws, Undefines, IsProtocol, perform_all-IsProtocol}

-- There are no settings, so that all values are the defaults.
abbrev out : Outside Unit
out = record {
  env = some (codes "test");
  file = λ path. none;
  object = λ c key. Result.returned c;
  empty = tt;
  hardware = 4;
}

abbrev json : Json Unit
json = record {
  text = λ c key default. some default;
  int = λ c key default. some default;
  unsigned = λ c key default. some default;
}

abbrev log_json : LogJson Unit
log_json = record {
  has = λ c key. false;
  text = λ c key default. Result.returned default;
  entries = λ c key. Result.returned [];
  named_entries = λ c key. Result.returned [];
}

abbrev spd : Spdlog ℕ ℕ
spd = record {
  stdout = λ k. (k, suc k);
  stderr = λ k. (k, suc k);
  file = λ k name. (Result.returned k, suc k);
  set_pattern = λ k s p. k;
  register = λ k name. (Result.returned tt, k);
  log = λ k l level message. k;
  flush = λ k l. k;
}

abbrev calls : List Call
calls =
    get (codes "/hello") (bind (error_function Status.ok))
    ∷ error Status.not_found (bind (error_function Status.not_found))
    ∷ logger (codes "Demo")
    ∷ []

abbrev is_returned : {A : Type 0} → Run A → Bool
is_returned (returned a) = true
is_returned _ = false

-- The calls all return.
runs :
    is_returned (
      perform_all out json log_json spd
        (use_app_settings (codes "appsettings.json") ∷ calls)
        (create, 0))
    ≡ true
unfolding perform_all perform use_settings initialize_components load_configs load_server_config
    load_logger_config parse_specification read_sinks read_loggers set_up get_logger init init_sinks
    route register_handler clean_path route_error take_named find insert equal
    register_default_handlers register_error_handler minet_core.Path.pop_slashes
runs = refl

build-perform_all-Serves_example :
    Holds
      (CannotUse out json log_json (codes "appsettings.json"))
      (LibraryThrows spd)
      (HasBadRoute calls)
      (λ (x : WebHost ℕ × State out json log_json spd). Serves x.0)
      (do
        (b, k1) ← use_settings out json log_json spd (codes "appsettings.json") create 0
        (b', k2) ← perform_all out json log_json spd calls (b, k1)
        build out json log_json spd b' k2)
build-perform_all-Serves_example =
    build-perform_all-Serves out json log_json spd (codes "appsettings.json") calls 0 (omega arith)
      (tt, (tt, (tt, tt)))

perform_all-IsProtocol_example :
    Holds
      (Status out json log_json (use_app_settings (codes "appsettings.json") ∷ calls))
      (Throws spd (use_app_settings (codes "appsettings.json") ∷ calls))
      (Undefines (use_app_settings (codes "appsettings.json") ∷ calls))
      (λ t. IsProtocol (use_app_settings (codes "appsettings.json") ∷ calls))
      (perform_all out json log_json spd
        (use_app_settings (codes "appsettings.json") ∷ calls)
        (create, 0))
perform_all-IsProtocol_example =
    perform_all-IsProtocol out json log_json spd
      (use_app_settings (codes "appsettings.json") ∷ calls) 0 (omega arith)
