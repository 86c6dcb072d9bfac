-- ===== src/Host.antt =====
-- The builder of the web host and the host: minet/src/core/WebHostBuilder.cpp and WebHost.cpp.
pub mod Holds
pub mod Settings
pub mod Protocol
pub mod Ready
pub mod Kept
mod Tests
use minet_core.Prelude.{
  ℕ, ◌++◌, List, [], ◌∷◌, Option, none, some, Bool, true, false, if◌then◌else◌, Bytes, codes,
  bytes_eq, equal,
}
use minet_core.Prelude.Result.{Result, Exception}
use minet_core.Http.{HttpMethod}
use minet_core.Server.{
  Server, create as create_server, EpollCalls, stop, start_async, basic_start_async,
}
use minet_core.Server.Config.{
  ServerConfig, Json, Loaded, loaded, invalid_port, wrong_type, load_server_config,
}
use minet_core.Net.{Calls}
use minet_core.Logging.{
  LoggerConfig, LogJson, load_logger_config, Spdlog, Logger, LoggerFactory, get_logger,
}
use minet_core.Dispatcher.{
  Handler, Dispatcher, empty_dispatcher, register_handler, register_error_handler,
}
use minet_core.Dispatcher.Handlers.{register_default_handlers}

-- What a call of the builder comes to: `exited` is a call of `exit`, and `undefined` one of `CleanPath` outside its
-- domain. An exception ends the calls.
pub data Run {ℓ} (A : Type ℓ) : Type ℓ where
  returned : A → Run A
  thrown : Exception → Run A
  undefined : Run A
  exited : ℕ → Run A

infixl 5 ◌>>=◌
abbrev pub ◌>>=◌ {ℓ κ} : {A : Type ℓ} {B : Type κ} → Run A → (A → Run B) → Run B
returned a >>= f = f a
thrown e >>= f = thrown e
undefined >>= f = undefined
exited n >>= f = exited n

-- The classes of servers.
pub data ServerKind : Type 0 where
  basic threaded mayhem : ServerKind

-- The comparisons of the name with `Identifier`.
abbrev pub server_kind : Bytes → Option ServerKind
server_kind name =
    if equal name (codes "Basic")
    then some ServerKind.basic
    else if equal name (codes "Threaded")
    then some ServerKind.threaded
    else if equal name (codes "Mayhem")
    then some ServerKind.mayhem
    else none

-- The singletons of the container. `server_logger` and `dispatcher_logger` are those that were set.
pub record Components (S : Type 0) : Type 0 where
  pub server_config : ServerConfig
  pub kind : ServerKind
  pub server : Server
  pub dispatcher : Dispatcher
  pub factory : LoggerFactory S
  pub server_logger : Option (Logger S)
  pub dispatcher_logger : Option (Logger S)

-- The builder. Its container has the components when `initialized` is set.
pub record WebHostBuilder (C S : Type 0) : Type 0 where
  pub app_settings_path : Bytes
  pub config : Option C
  pub initialized : Bool
  pub components : Option (Components S)

-- `Create`
abbrev pub create : {C S : Type 0} → WebHostBuilder C S
create = record { app_settings_path = []; config = none; initialized = false; components = none }

-- What the builder asks of the system and of the libraries: `getenv` of MINET_CORE_ENV, a file that is opened and
-- parsed, where none is a file that is not open and `some none` one that is no JSON; `value` with an
-- empty object, and the empty object.
pub record Outside (C : Type 0) : Type 0 where
  pub env : Option Bytes
  pub file : Bytes → Option (Option C)
  pub object : C → Bytes → Result C
  pub empty : C
  pub hardware : ℕ

-- The host, with the components that it shares with the builder.
pub record WebHost (S : Type 0) : Type 0 where
  pub kind : ServerKind
  pub server : Server
  pub dispatcher : Dispatcher
  pub logger : Option (Logger S)

-- `SetOnConnection`
abbrev pub set_on_connection : Server → Server
set_on_connection s = record s { has_callback = true }

-- The path of the settings, after `MINET_CORE_ENV` for the one that is the default.
abbrev pub env_path : Bytes → Option Bytes → Bytes
env_path path none = path
env_path path (some env) = codes "appsettings." ++ (env ++ codes ".json")

abbrev pub settings_path : Option Bytes → Bytes → Bytes
settings_path env path = if equal path (codes "appsettings.json") then env_path path env else path

-- A call of a member function of the builder.
pub data Call : Type 0 where
  use_app_settings : Bytes → Call
  get post put delete : Bytes → Handler → Call
  error : ℕ → Handler → Call
  logger : Bytes → Call

module _ {C K S : Type 0} (out : Outside C) (json : Json C) (log_json : LogJson C)
    (spd : Spdlog K S) where
  -- A builder and the state of the library for logging.
  abbrev pub State : Type 0
  State = WebHostBuilder C S × K

  -- `file.is_open()`, and `json::parse`
  abbrev pub parse_file : Option (Option C) → Run C
  parse_file none = returned out.empty
  parse_file (some none) = exited 2
  parse_file (some (some c)) = returned c

  -- The first part of `_LoadSettings`
  abbrev pub load_json : Bytes → Run C
  load_json path = if equal path [] then returned out.empty else parse_file (out.file path)

  -- What `try` and `catch` in `_LoadSettings` make of an exception.
  abbrev pub or_exit {ℓ} : {A : Type ℓ} → Result A → Run A
  or_exit (Result.returned a) = returned a
  or_exit (Result.thrown e) = exited 2

  abbrev pub server_or_exit : Loaded → Run ServerConfig
  server_or_exit (loaded c) = returned c
  server_or_exit (invalid_port p) = exited 2
  server_or_exit wrong_type = exited 2

  -- The second part of `_LoadSettings`
  unfoldable pub load_configs : C → Run (ServerConfig × LoggerConfig)
  load_configs c = do
    s ← or_exit (out.object c (codes "server"))
    server ← server_or_exit (load_server_config json out.hardware s)
    l ← or_exit (out.object c (codes "logging"))
    logging ← or_exit (load_logger_config log_json l)
    returned (server, logging)

  -- An unknown server ends the program.
  abbrev pub kind_or_exit : Option ServerKind → Run ServerKind
  kind_or_exit none = exited 3
  kind_or_exit (some kind) = returned kind

  -- The components before their loggers are set.
  abbrev pub new_components : ServerConfig → LoggerConfig → ServerKind → Components S
  new_components server logging kind = record {
    server_config = server;
    kind = kind;
    server = create_server server.port false;
    dispatcher = empty_dispatcher;
    factory = record { config = logging; loggers = [] };
    server_logger = none;
    dispatcher_logger = none;
  }

  -- `GetLogger` of the factory, with the components after it.
  abbrev pub with_logger :
      Components S → Result (Logger S) × LoggerFactory S × K → Run (Logger S × Components S × K)
  with_logger c (Result.thrown e, f, k) = thrown e
  with_logger c (Result.returned l, f, k) = returned (l, record c { factory = f }, k)

  abbrev pub take_logger : Bytes → Components S → K → Run (Logger S × Components S × K)
  take_logger name c k = with_logger c (get_logger spd c.factory k name)

  -- The loggers of the server and of the dispatcher, and the default handlers.
  unfoldable pub set_up : Components S → K → Run (Components S × K)
  set_up c k = do
    (l, c1, k1) ← take_logger (codes "Server") c k
    (m, c2, k2) ← take_logger (codes "RequestDispatcher") c1 k1
    returned (
      record c2 {
        server_logger = some l;
        dispatcher_logger = some m;
        dispatcher = register_default_handlers c2.dispatcher;
      },
      k2,
    )

  -- `_InitializeComponents`, with `_LoadSettings`
  unfoldable pub initialize_components : WebHostBuilder C S → K → Run State
  initialize_components b k = do
    json ← load_json b.app_settings_path
    (server, logging) ← load_configs json
    kind ← kind_or_exit (server_kind server.name)
    (c, k') ← set_up (new_components server logging kind) k
    returned (record b { config = some json; components = some c }, k')

  -- `UseAppSettings`
  unfoldable pub use_settings : Bytes → WebHostBuilder C S → K → Run State
  use_settings path b k =
      if b.initialized
      then exited 1
      else initialize_components
          (record b { initialized = true; app_settings_path = settings_path out.env path }) k

  -- `_Preamble`, and the components of the container.
  abbrev pub resolve : Option (Components S) → Run (Components S)
  resolve none = undefined
  resolve (some c) = returned c

  abbrev pub preamble : WebHostBuilder C S → Run (Components S)
  preamble b = if b.initialized then resolve b.components else exited 2

  -- `RegisterHandler` of the dispatcher
  abbrev pub dispatcher_or_undefined : Option Dispatcher → Run Dispatcher
  dispatcher_or_undefined none = undefined
  dispatcher_or_undefined (some d) = returned d

  -- `_RegisterHandler`
  unfoldable pub route : Bytes → HttpMethod → Handler → WebHostBuilder C S → K → Run State
  route path method h b k = do
    c ← preamble b
    d ← dispatcher_or_undefined (register_handler path method h c.dispatcher)
    returned (record b { components = some (record c { dispatcher = d }) }, k)

  -- `_RegisterErrorHandler`
  unfoldable pub route_error : ℕ → Handler → WebHostBuilder C S → K → Run State
  route_error code h b k = do
    c ← preamble b
    returned (
      record b {
        components = some (record c { dispatcher = register_error_handler code h c.dispatcher });
      },
      k,
    )

  -- `GetLogger`
  unfoldable pub take_named : Bytes → WebHostBuilder C S → K → Run (Logger S × State)
  take_named name b k = do
    c ← preamble b
    (l, c', k') ← take_logger name c k
    returned (l, (record b { components = some c' }, k'))

  -- A call, after which a logger that it returned is left out.
  unfoldable pub perform : Call → State → Run State
  perform (use_app_settings path) (b, k) = use_settings path b k
  perform (get path h) (b, k) = route path HttpMethod.get h b k
  perform (post path h) (b, k) = route path HttpMethod.post h b k
  perform (put path h) (b, k) = route path HttpMethod.put h b k
  perform (delete path h) (b, k) = route path HttpMethod.delete h b k
  perform (error code h) (b, k) = route_error code h b k
  perform (logger name) (b, k) = do (l, t) ← take_named name b k; returned t

  -- Calls one after the other.
  unfoldable pub perform_all : List Call → State → Run State
  perform_all [] s = returned s
  perform_all (c ∷ cs) s = do t ← perform c s; perform_all cs t

  -- The end of `Build`, and the constructor of the host, which sets the callback of the server.
  abbrev pub after_loggers :
      WebHostBuilder C S → Logger S × Components S × K → Run (WebHost S × State)
  after_loggers b (l, c, k) =
      let server = set_on_connection c.server in
      returned (
        record { kind = c.kind; server = server; dispatcher = c.dispatcher; logger = some l },
        (record b { components = some (record c { server = server }) }, k),
      )

  -- `Build`, with the constructor of `WebHost`
  unfoldable pub build : WebHostBuilder C S → K → Run (WebHost S × State)
  build b k = do
    c ← preamble b
    (l, c1, k1) ← take_logger (codes "Server") c k
    x ← take_logger (codes "WebHost") (record c1 { server_logger = some l }) k1
    after_loggers b x

module _ {N : Type 0} (calls : Calls N) (epoll : EpollCalls N) where
  -- `StartAsync`, by the class of the server
  abbrev pub start : ServerKind → Server → N → Server × N
  start ServerKind.basic s n = basic_start_async calls epoll s n
  start ServerKind.threaded s n = basic_start_async calls epoll s n
  start ServerKind.mayhem s n = start_async calls epoll s n

  -- `Run` of the host up to `Await`
  abbrev pub run : {S : Type 0} → WebHost S → N → WebHost S × N
  run h n = let (s, n') = start h.kind h.server n in (record h { server = s }, n')

-- `_OnInterrupted`
abbrev pub on_interrupted : {S : Type 0} → WebHost S → WebHost S
on_interrupted h = record h { server = stop h.server }
