-- ===== src/Logging/Tests.antt =====
-- Loggers of minet/src/common/Log.cpp and minet/src/components/LoggerFactory.cpp: runs, and the theorems at
-- concrete inputs.
use minet_core.Prelude.{
  ℕ, suc, [], ◌∷◌, ◌&&◌, if◌then◌else◌, ltb, nat_eq, ◌==◌, ◌≡◌, ◌↔◌, refl, codes, equal, bytes_eq,
}
use minet_core.Prelude.Map.{find}
use minet_core.Prelude.Result.{returned, thrown, Exception}
use minet_core.Logging.{
  LogLevel, lower, parse_log_level, LoggerConfig, LogJson, SpdLevel, Spdlog, Logger, LoggerFactory,
  init, init_sinks, get_logger,
}
use minet_core.Logging.Levels.{level_name, parse_log_level_iff}
use minet_core.Logging.Loads.{IsValid}
use minet_core.Logging.Cache.{Made, Gives, get_logger-same, get_logger-Gives}

parse_log_level_iff_example :
    (parse_log_level (codes "Warning") ≡ LogLevel.warning)
    ↔ (lower (codes "Warning") ≡ level_name LogLevel.warning)
parse_log_level_iff_example = parse_log_level_iff (codes "Warning") LogLevel.warning (λ e. cc)

-- A configuration at 0, with a logger at 1, and with one sink each, at 2: no other value has entries, and no text
-- stands where there are some.
abbrev json : LogJson ℕ
json = record {
  has = λ c key. equal key (codes "level") && ltb c 2;
  text = λ c key default.
      if equal key (codes "level")
      then (if ltb c 2 then returned (codes "WARNING") else returned default)
      else if equal key (codes "file")
      then (if c == 2 then returned (codes "stdout") else returned default)
      else if equal key (codes "pattern")
      then returned default
      else thrown Exception.library_error;
  entries = λ c key.
      if equal key (codes "sinks") && ltb c 2
      then returned (2 ∷ [])
      else thrown Exception.library_error;
  named_entries = λ c key.
      if equal key (codes "loggers") && c == 0
      then returned ((returned (codes "Demo"), 1) ∷ [])
      else thrown Exception.library_error;
}

-- A library that counts the sinks.
abbrev counting : Spdlog ℕ ℕ
counting = record {
  stdout = λ k. (k, suc k);
  stderr = λ k. (k, suc k);
  file = λ k name. (returned k, suc k);
  set_pattern = λ k s p. k;
  register = λ k name. (returned tt, k);
  log = λ k l level message. k;
  flush = λ k l. k;
}

abbrev config : LoggerConfig
config = record {
  default_level = LogLevel.info;
  default_pattern = [];
  default_sinks = record { pattern = []; file = codes "stdout" } ∷ [];
  specifications = [];
}

config-IsValid : IsValid config
config-IsValid = record { level_is = λ e. cc; sinks_are = ((λ e. cc), tt); specifications_are = tt }

abbrev factory : LoggerFactory ℕ
factory = record { config = config; loggers = [] }

abbrev demo : Logger ℕ
demo = record {
  name = codes "Demo";
  sinks = 7 ∷ [];
  level = SpdLevel.info;
  flush_level = SpdLevel.info;
}

demo-made : (get_logger counting factory 7 (codes "Demo")).0 ≡ returned demo
unfolding get_logger init init_sinks find equal
demo-made = refl

get_logger-same_example :
    let f1 = (get_logger counting factory 7 (codes "Demo")).1 in
    let f2 = (get_logger counting f1 8 (codes "Server")).1 in
    get_logger counting f2 9 (codes "Demo") ≡ (returned demo, f2, 9)
get_logger-same_example =
    get_logger-same counting factory 7 8 9 (codes "Demo") (codes "Server") demo demo-made

factory-Made : Made factory
unfolding find
factory-Made name l e = cc

get_logger-Gives_example :
    Gives counting factory (codes "Demo") (get_logger counting factory 7 (codes "Demo"))
get_logger-Gives_example =
    get_logger-Gives counting factory 7 (codes "Demo") config-IsValid factory-Made
