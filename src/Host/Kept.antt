-- ===== src/Host/Kept.antt =====
-- What any calls of the builder after the settings come to: minet/src/core/WebHostBuilder.cpp.
use minet_core.Prelude.{
  ℕ, ◌≤◌, List, [], ◌∷◌, Option, none, some, true, false, ◌≡◌, refl, sym, All, Bytes, codes,
  bytes_eq, nat_eq,
}
use mathlib.Core.Path.{subst}
use minet_core.Http.{HttpMethod}
use minet_core.Server.Config.{Json}
use minet_core.Logging.{LogJson, Spdlog, Logger}
use minet_core.Dispatcher.{Handler, Dispatcher, register_handler, register_at}
use minet_core.Path.{clean_path}
use minet_core.Host.{
  ◌>>=◌, Components, WebHostBuilder, create, use_settings, WebHost, Outside, Call, use_app_settings,
  get, post, put, delete, error, logger, State, preamble, dispatcher_or_undefined, route,
  route_error, take_named, perform, perform_all, build,
}
use minet_core.Host.Holds.{Holds, returns, is_undefined, Holds-bind, Holds-map}
use minet_core.Host.Settings.{CannotUse}
use minet_core.Host.Ready.{
  LibraryThrows, use_settings-Ready, Answers, IsReady, Ready, take_logger-IsReady,
  register_handler-Answers, register_error_handler-Answers,
}

-- A call that is not of `UseAppSettings`.
abbrev pub IsOrdinary : Call → Type 0
IsOrdinary (use_app_settings path) = ⊥
IsOrdinary _ = Unit

-- A call that registers a handler for a path that `CleanPath` is not defined for.
abbrev pub IsBadRoute : Call → Type 0
IsBadRoute (get path h) = clean_path path ≡ none
IsBadRoute (post path h) = clean_path path ≡ none
IsBadRoute (put path h) = clean_path path ≡ none
IsBadRoute (delete path h) = clean_path path ≡ none
IsBadRoute _ = ⊥

-- Some of the calls is such a call.
pub data HasBadRoute : List Call → Type 0 where
  bad_first : {c : Call} {cs : List Call} → IsBadRoute c → HasBadRoute (c ∷ cs)
  bad_later : {c : Call} {cs : List Call} → HasBadRoute cs → HasBadRoute (c ∷ cs)

-- A host that can serve: its server does not run, has a callback and a port, and its dispatcher answers errors.
pub record Serves {S : Type 0} (h : WebHost S) : Type 0 where
  pub callback_set : h.server.has_callback ≡ true
  pub not_running : h.server.running ≡ false
  pub port_low : 1 ≤ h.server.port
  pub port_high : h.server.port ≤ 65535
  pub answers : Answers h.dispatcher

-- No status
abbrev pub Never : ℕ → Type 0
Never n = ⊥

module _ {C K S : Type 0} (out : Outside C) (json : Json C) (log_json : LogJson C)
    (spd : Spdlog K S) where
  preamble-IsReady :
      (b : WebHostBuilder C S) (k : K) {U : Type 0}
      → Ready out json log_json spd (b, k)
      → Holds Never (LibraryThrows spd) U (IsReady Answers) (preamble out json log_json spd b)
  preamble-IsReady b k (c, set, there, h) = rw (set, there) (returns h)

  with_dispatcher-Ready :
      (b : WebHostBuilder C S) (k : K) (c : Components S) (d : Dispatcher)
      → Ready out json log_json spd (b, k)
      → IsReady Answers c
      → Answers d
      → Ready out json log_json spd
          (record b { components = some (record c { dispatcher = d }) }, k)
  with_dispatcher-Ready b k c d (c0, set, there, h0) h a = (
    record c { dispatcher = d },
    set,
    refl,
    record {
      config_is = h.config_is;
      kind_is = h.kind_is;
      port_is = h.port_is;
      not_running = h.not_running;
      logging_is = h.logging_is;
      loggers_are = h.loggers_are;
      answers = a;
    },
  )

  dispatcher_or_undefined-Holds :
      (o : Option Dispatcher)
      → Holds Never
          (LibraryThrows spd)
          (o ≡ none)
          (λ d. o ≡ some d)
          (dispatcher_or_undefined out json log_json spd o)
  dispatcher_or_undefined-Holds none = is_undefined refl
  dispatcher_or_undefined-Holds (some d) = returns refl

  register_at-none :
      (m : HttpMethod) (h : Handler) (d : Dispatcher) (o : Option Bytes)
      → register_at m h d o ≡ none
      → o ≡ none
  register_at-none m h d none e = refl
  register_at-none m h d (some path) e = cc

  register_handler-none :
      (path : Bytes) (m : HttpMethod) (h : Handler) (d : Dispatcher)
      → register_handler path m h d ≡ none
      → clean_path path ≡ none
  unfolding register_handler
  register_handler-none path m h d e = register_at-none m h d (clean_path path) e

  route-Ready :
      (path : Bytes) (m : HttpMethod) (h : Handler) (b : WebHostBuilder C S) (k : K)
      → Ready out json log_json spd (b, k)
      → Holds Never
          (LibraryThrows spd)
          (clean_path path ≡ none)
          (Ready out json log_json spd)
          (route out json log_json spd path m h b k)
  unfolding route
  route-Ready path m h b k ready = Holds-bind _ (preamble-IsReady b k ready) λ c r.
      Holds-bind _
        (Holds-map (λ d. register_handler path m h c.dispatcher ≡ some d)
          (dispatcher_or_undefined-Holds (register_handler path m h c.dispatcher)) (λ n bad. bad)
          (λ x t. t) (register_handler-none path m h c.dispatcher) (λ d e. e))
        λ d e. returns (
          with_dispatcher-Ready b k c d ready r
            (register_handler-Answers path m h c.dispatcher r.answers e))

  route_error-Ready :
      (code : ℕ) (h : Handler) (b : WebHostBuilder C S) (k : K)
      → Ready out json log_json spd (b, k)
      → Holds Never
          (LibraryThrows spd)
          ⊥
          (Ready out json log_json spd)
          (route_error out json log_json spd code h b k)
  unfolding route_error
  route_error-Ready code h b k ready = Holds-bind _ (preamble-IsReady b k ready) λ c r. returns (
      with_dispatcher-Ready b k c _ ready r
        (register_error_handler-Answers code h c.dispatcher r.answers))

  take_named-Ready :
      (name : Bytes) (b : WebHostBuilder C S) (k : K)
      → Ready out json log_json spd (b, k)
      → Holds Never
          (LibraryThrows spd)
          ⊥
          (λ (x : Logger S × State out json log_json spd). Ready out json log_json spd x.1)
          (take_named out json log_json spd name b k)
  unfolding take_named
  take_named-Ready name b k ready = Holds-bind _ (preamble-IsReady b k ready) λ c r.
      Holds-bind _ (take_logger-IsReady out json log_json spd Never ⊥ name c k r)
        λ (l, c', k') h. returns (c', ready.1, refl, h)

  pub perform-Ready :
      (call : Call) (b : WebHostBuilder C S) (k : K)
      → IsOrdinary call
      → Ready out json log_json spd (b, k)
      → Holds Never
          (LibraryThrows spd)
          (IsBadRoute call)
          (Ready out json log_json spd)
          (perform out json log_json spd call (b, k))
  unfolding perform
  perform-Ready (use_app_settings path) b k o ready = absurd o
  perform-Ready (get path h) b k o ready = route-Ready path _ h b k ready
  perform-Ready (post path h) b k o ready = route-Ready path _ h b k ready
  perform-Ready (put path h) b k o ready = route-Ready path _ h b k ready
  perform-Ready (delete path h) b k o ready = route-Ready path _ h b k ready
  perform-Ready (error code h) b k o ready = route_error-Ready code h b k ready
  perform-Ready (logger name) b k o ready =
      Holds-bind _ (take_named-Ready name b k ready) λ (l, t) h. returns h

  perform_all-Ready :
      (calls : List Call) (b : WebHostBuilder C S) (k : K)
      → All IsOrdinary calls
      → Ready out json log_json spd (b, k)
      → Holds Never
          (LibraryThrows spd)
          (HasBadRoute calls)
          (Ready out json log_json spd)
          (perform_all out json log_json spd calls (b, k))
  unfolding perform_all
  perform_all-Ready [] b k os ready = returns ready
  perform_all-Ready (call ∷ calls) b k (o, os) ready =
      let is_kept = Ready out json log_json spd in
      Holds-bind is_kept
        (Holds-map is_kept (perform-Ready call b k o ready) (λ n bad. bad) (λ e t. t) bad_first
          (λ t h. h))
        λ (b', k') h.
          Holds-map is_kept (perform_all-Ready calls b' k' os h) (λ n bad. bad) (λ e t. t) bad_later
            (λ t h. h)

  -- The first part of the result of `build`.
  abbrev IsServing : WebHost S × State out json log_json spd → Type 0
  IsServing x = Serves x.0

  build-Serves :
      (b : WebHostBuilder C S) (k : K)
      → Ready out json log_json spd (b, k)
      → Holds Never (LibraryThrows spd) ⊥ IsServing (build out json log_json spd b k)
  unfolding build
  build-Serves b k ready = Holds-bind IsServing (preamble-IsReady b k ready) λ c h.
      Holds-bind IsServing
        (take_logger-IsReady out json log_json spd Never ⊥ (codes "Server") c k h)
        λ (l, c1, k1) h1.
          Holds-bind IsServing
            (take_logger-IsReady out json log_json spd {A = Answers} Never ⊥ (codes "WebHost")
              (record c1 { server_logger = some l }) k1
              (record {
                config_is = h1.config_is;
                kind_is = h1.kind_is;
                port_is = h1.port_is;
                not_running = h1.not_running;
                logging_is = h1.logging_is;
                loggers_are = h1.loggers_are;
                answers = h1.answers;
              }))
            λ (m, c2, k2) h2. returns (record {
              callback_set = refl;
              not_running = h2.not_running;
              port_low = subst (λ n. 1 ≤ n) (sym h2.port_is) h2.config_is.port_low;
              port_high = subst (λ n. n ≤ 65535) (sym h2.port_is) h2.config_is.port_high;
              answers = h2.answers;
            })

  -- A program that calls `UseAppSettings` on a new builder, then makes any calls but that one, and then
  -- `Build`, on hardware with a thread, gets a host whose server has its callback and a port from 1 to
  -- 65535, and whose dispatcher has a handler for each of the default errors. It ends only because the settings
  -- at the path, or at the one of the environment, cannot be used: with status 2 when the file is no JSON, or has
  -- no configuration of the server or of the loggers that can be loaded, and with 3 for the name of no server.
  -- An exception comes only from the library for logging, which cannot open a file or register a name; and
  -- behaviour is undefined only when a handler is registered for a path that `CleanPath` is not defined for.
  pub build-perform_all-Serves :
      (path : Bytes) (calls : List Call) (k : K)
      → 1 ≤ out.hardware
      → All IsOrdinary calls
      → Holds
          (CannotUse out json log_json path)
          (LibraryThrows spd)
          (HasBadRoute calls)
          (λ (x : WebHost S × State out json log_json spd). Serves x.0)
          (do
            (b, k1) ← use_settings out json log_json spd path create k
            (b', k2) ← perform_all out json log_json spd calls (b, k1)
            build out json log_json spd b' k2)
  build-perform_all-Serves path calls k some_thread os =
      Holds-bind IsServing
        (Holds-map (Ready out json log_json spd)
          (use_settings-Ready out json log_json spd path create k some_thread refl) (λ n f. f)
          (λ e t. t) (λ u. absurd u) (λ t h. h))
        λ (b, k1) h.
          Holds-bind IsServing
            (Holds-map (Ready out json log_json spd) (perform_all-Ready calls b k1 os h)
              (λ n bad. absurd bad) (λ e t. t) (λ u. u) (λ t h. h))
            λ (b', k2) h.
              Holds-map IsServing (build-Serves b' k2 h) (λ n bad. absurd bad) (λ e t. t)
                (λ u. absurd u) (λ x h. h)
