-- ===== src/Host/Settings.antt =====
-- Which settings end the program: `_LoadSettings` and `_InitializeComponents` of
-- minet/src/core/WebHostBuilder.cpp.
use minet_core.Prelude.{
  ℕ, ◌++◌, ◌≤◌, [], Option, none, some, Bool, true, false, if◌then◌else◌, ◌≡◌, ◌≢◌, ◌⊎◌, inl, inr,
  refl, Bool-cases, Bytes, codes, bytes_eq, equal, equal_iff,
}
use minet_core.Prelude.Result.{Result, Exception}
use minet_core.Server.Config.{
  ServerConfig, Json, Loaded, loaded, invalid_port, wrong_type, load_server_config, IsUsable,
  Usable, usable, load_server_config-Usable,
}
use minet_core.Logging.{LoggerConfig, LogJson, load_logger_config, Spdlog}
use minet_core.Logging.Loads.{IsValid, loaded-IsValid}
use minet_core.Host.{
  ServerKind, server_kind, Outside, env_path, settings_path, parse_file, load_json, or_exit,
  server_or_exit, load_configs, kind_or_exit,
}
use minet_core.Host.Holds.{Holds, returns, exits, Holds-bind, Holds-if}

equal-ne : (s t : Bytes) → equal s t ≡ false → s ≢ t
equal-ne s t e same = let found : equal s t ≡ true = (equal_iff s t).1 same in cc

kinds-none :
    (b c d : Bool)
    → (if b
        then some ServerKind.basic
        else if c
        then some ServerKind.threaded
        else if d
        then some ServerKind.mayhem
        else none)
      ≡ none
    → (b ≡ false) × (c ≡ false) × (d ≡ false)
kinds-none true c d e = cc
kinds-none false true d e = cc
kinds-none false false true e = cc
kinds-none false false false e = (refl, refl, refl)

-- A name that is of no server.
pub record IsNoServer (name : Bytes) : Type 0 where
  pub basic : name ≢ codes "Basic"
  pub threaded : name ≢ codes "Threaded"
  pub mayhem : name ≢ codes "Mayhem"

server_kind-IsNoServer : (name : Bytes) → server_kind name ≡ none → IsNoServer name
server_kind-IsNoServer name e =
    let others =
      kinds-none (equal name (codes "Basic")) (equal name (codes "Threaded"))
        (equal name (codes "Mayhem")) e in
    record {
      basic = equal-ne name _ others.0;
      threaded = equal-ne name _ others.1;
      mayhem = equal-ne name _ others.2;
    }

module _ {C : Type 0} (out : Outside C) where
  -- The path of the settings is the one that was given, but `appsettings.<environment>.json` for the default one when
  -- there is an environment.
  pub data IsSettingsPath (path : Bytes) : Bytes → Type 0 where
    by_env :
        {env : Bytes}
        → path ≡ codes "appsettings.json"
        → out.env ≡ some env
        → IsSettingsPath path (codes "appsettings." ++ (env ++ codes ".json"))
    as_given : (path ≢ codes "appsettings.json") ⊎ (out.env ≡ none) → IsSettingsPath path path

  env_path-IsSettingsPath :
      (path : Bytes) (env : Option Bytes)
      → path ≡ codes "appsettings.json"
      → out.env ≡ env
      → IsSettingsPath path (env_path path env)
  env_path-IsSettingsPath path none d e = as_given (inr e)
  env_path-IsSettingsPath path (some env) d e = by_env d e

  pub settings_path-IsSettingsPath :
      (path : Bytes) → IsSettingsPath path (settings_path out.env path)
  settings_path-IsSettingsPath path = elim (Bool-cases (equal path (codes "appsettings.json"))) [
    | inl e ↦ rw e (env_path-IsSettingsPath path out.env ((equal_iff path _).0 e) refl)
    | inr e ↦ rw e (as_given (inl (equal-ne path _ e)))
  ]

  -- The JSON at a path: the empty one when there is no file.
  pub data Settings (p : Bytes) : C → Type 0 where
    no_path : p ≡ [] → Settings p out.empty
    no_file : out.file p ≡ none → Settings p out.empty
    parsed : {c : C} → out.file p ≡ some (some c) → Settings p c

module _ {C : Type 0} (out : Outside C) (json : Json C) (log_json : LogJson C) where
  -- The configuration of the server in the settings at a path.
  pub data IsServerOf (p : Bytes) (config : ServerConfig) : Type 0 where
    in_settings :
        {c s : C}
        → Settings out p c
        → out.object c (codes "server") ≡ Result.returned s
        → load_server_config json out.hardware s ≡ loaded config
        → IsServerOf p config

  -- Why the settings at a path cannot be used, and the status with which they end the program.
  pub data BadSettings (p : Bytes) : ℕ → Type 0 where
    no_json : out.file p ≡ some none → BadSettings p 2
    no_server_object :
        {c : C} {e : Exception}
        → Settings out p c
        → out.object c (codes "server") ≡ Result.thrown e
        → BadSettings p 2
    no_server :
        {c s : C}
        → Settings out p c
        → out.object c (codes "server") ≡ Result.returned s
        → ((config : ServerConfig) → load_server_config json out.hardware s ≢ loaded config)
        → BadSettings p 2
    no_logging_object :
        {c : C} {e : Exception}
        → Settings out p c
        → out.object c (codes "logging") ≡ Result.thrown e
        → BadSettings p 2
    no_logging :
        {c l : C} {e : Exception}
        → Settings out p c
        → out.object c (codes "logging") ≡ Result.returned l
        → load_logger_config log_json l ≡ Result.thrown e
        → BadSettings p 2
    unknown_server :
        {config : ServerConfig} → IsServerOf p config → IsNoServer config.name → BadSettings p 3

  -- The settings of a path that is given to `UseAppSettings` cannot be used, which ends the program.
  abbrev pub CannotUse : Bytes → ℕ → Type 0
  CannotUse path n = (p : Bytes) × IsSettingsPath out path p × BadSettings p n

  -- The configurations of the server and of the loggers in the settings, which can be used.
  abbrev pub AreUsable : Bytes → ServerConfig × LoggerConfig → Type 0
  AreUsable p (server, logging) = IsServerOf p server × IsUsable server × IsValid logging

  module _ {K S : Type 0} (spd : Spdlog K S) (T : Exception → Type 0) (p : Bytes) where
    or_exit-Holds :
        {A : Type 0} (P : A → Type 0) (r : Result A)
        → ((a : A) → r ≡ Result.returned a → P a)
        → ((e : Exception) → r ≡ Result.thrown e → BadSettings p 2)
        → Holds (BadSettings p) T ⊥ P (or_exit out json log_json spd r)
    or_exit-Holds P (Result.returned a) h g = returns (h a refl)
    or_exit-Holds P (Result.thrown e) h g = exits (g e refl)

    server_or_exit-Holds :
        (c s : C) (l : Loaded)
        → Settings out p c
        → out.object c (codes "server") ≡ Result.returned s
        → load_server_config json out.hardware s ≡ l
        → Usable l
        → Holds
            (BadSettings p)
            T
            ⊥
            (λ config. IsServerOf p config × IsUsable config)
            (server_or_exit out json log_json spd l)
    server_or_exit-Holds c s (loaded config) at o e (usable h) = returns (in_settings at o e, h)
    server_or_exit-Holds c s (invalid_port n) at o e u = exits (no_server at o (λ config t. cc))
    server_or_exit-Holds c s wrong_type at o e u = exits (no_server at o (λ config t. cc))

    pub load_configs-Holds :
        (c : C)
        → 1 ≤ out.hardware
        → Settings out p c
        → Holds (BadSettings p) T ⊥ (AreUsable p) (load_configs out json log_json spd c)
    unfolding load_configs
    load_configs-Holds c some_thread at =
        Holds-bind (AreUsable p)
          (or_exit-Holds (λ s. out.object c (codes "server") ≡ Result.returned s)
            (out.object c (codes "server")) (λ s e. e) (λ x e. no_server_object at e))
          λ s o.
            Holds-bind (AreUsable p)
              (server_or_exit-Holds c s _ at o refl
                (load_server_config-Usable json out.hardware s some_thread))
              λ server h.
                Holds-bind (AreUsable p)
                  (or_exit-Holds (λ l. out.object c (codes "logging") ≡ Result.returned l)
                    (out.object c (codes "logging")) (λ l e. e) (λ x e. no_logging_object at e))
                  λ l o'.
                    Holds-bind (AreUsable p)
                      (or_exit-Holds IsValid (load_logger_config log_json l)
                        (loaded-IsValid log_json l) (λ x e. no_logging at o' e))
                      λ logging g. returns (h.0, h.1, g)

    parse_file-Holds :
        (o : Option (Option C))
        → out.file p ≡ o
        → Holds (BadSettings p) T ⊥ (Settings out p) (parse_file out json log_json spd o)
    parse_file-Holds none e = returns (no_file e)
    parse_file-Holds (some none) e = exits (no_json e)
    parse_file-Holds (some (some c)) e = returns (parsed e)

    pub load_json-Holds :
        Holds (BadSettings p) T ⊥ (Settings out p) (load_json out json log_json spd p)
    load_json-Holds =
        Holds-if (equal p []) (λ e. returns (no_path ((equal_iff p []).0 e)))
          λ e. parse_file-Holds (out.file p) refl

    pub kind_or_exit-Holds :
        (config : ServerConfig) (o : Option ServerKind)
        → IsServerOf p config
        → server_kind config.name ≡ o
        → Holds (BadSettings p) T ⊥ (λ kind. o ≡ some kind) (kind_or_exit out json log_json spd o)
    kind_or_exit-Holds config none at e =
        exits (unknown_server at (server_kind-IsNoServer config.name e))
    kind_or_exit-Holds config (some kind) at e = returns refl
