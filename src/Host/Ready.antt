-- ===== src/Host/Ready.antt =====
-- What the components of the builder are, after any calls: minet/src/core/WebHostBuilder.cpp.
use minet_core.Prelude.{
  ℕ, ◌≤◌, [], Option, none, some, true, false, ◌≡◌, ◌≢◌, ◌⊎◌, inl, inr, refl, sym, arith, Bytes,
  codes, bytes_eq, nat_eq,
}
use mathlib.Core.Path.{subst}
use minet_core.Prelude.Map.{find, find-insert}
use minet_core.Prelude.Result.{Result, Exception}
use minet_core.Http.{HttpMethod}
use minet_core.Http.Status
use minet_core.Server.Config.{Json, IsUsable}
use minet_core.Logging.{LoggerConfig, LogJson, Spdlog, Logger, LoggerFactory}
use minet_core.Logging.Loads.{IsValid}
use minet_core.Logging.Makes.{Refuses}
use minet_core.Logging.Cache.{Made, Gives, gives, refuses, get_logger-Gives}
use minet_core.Host.Holds.{Holds, returns, throws, Holds-bind, Holds-map}
use minet_core.Host.Settings.{
  BadSettings, CannotUse, settings_path-IsSettingsPath, load_json-Holds, load_configs-Holds,
  kind_or_exit-Holds,
}
use minet_core.Dispatcher.{
  Handler, Dispatcher, register_handler, register_error_handler, register_at, register_clean,
  put_if_absent, lookup, Found, found, no_path, no_method,
}
use minet_core.Dispatcher.Handlers.{register_default_handlers}
use minet_core.Path.{clean_path}
use minet_core.Host.{
  server_kind, Components, WebHostBuilder, Outside, State, new_components, with_logger, take_logger,
  set_up, initialize_components, use_settings,
}

-- The codes for which there are default handlers.
abbrev pub IsDefault : ℕ → Type 0
IsDefault code =
    (code ≡ Status.bad_request)
    ⊎ (code ≡ Status.method_not_allowed)
    ⊎ (code ≡ Status.not_found)
    ⊎ (code ≡ Status.internal_server_error)

-- The dispatcher has a handler for each of them.
abbrev pub Answers : Dispatcher → Type 0
Answers d = (code : ℕ) → IsDefault code → find code d.error_handlers ≢ none

-- Components that can serve: the configurations can be used, the loggers are what the configuration asks for,
-- the server is on the port of its configuration and does not run, and the dispatcher has `A`.
pub record IsReady {S : Type 0} (A : Dispatcher → Type 0) (c : Components S) : Type 0 where
  pub config_is : IsUsable c.server_config
  pub kind_is : server_kind c.server_config.name ≡ some c.kind
  pub port_is : c.server.port ≡ c.server_config.port
  pub not_running : c.server.running ≡ false
  pub logging_is : IsValid c.factory.config
  pub loggers_are : Made c.factory
  pub answers : A c.dispatcher

insert-ne :
    (code n : ℕ) (h : Handler) (d : Dispatcher)
    → (n ≡ code) ⊎ (find n d.error_handlers ≢ none)
    → find n (register_error_handler code h d).error_handlers ≢ none
unfolding register_error_handler
insert-ne code n h d (inl same) = ground (arith, find-insert code n h d.error_handlers)
insert-ne code n h d (inr known) = ground (arith, find-insert code n h d.error_handlers)

pub register_error_handler-Answers :
    (code : ℕ) (h : Handler) (d : Dispatcher)
    → Answers d
    → Answers (register_error_handler code h d)
register_error_handler-Answers code h d a n k = insert-ne code n h d (inr (a n k))

register_default_handlers-Answers : (d : Dispatcher) → Answers (register_default_handlers d)
unfolding register_default_handlers
register_default_handlers-Answers d n (inr (inr (inr e))) = insert-ne _ n _ _ (inl e)
register_default_handlers-Answers d n (inr (inr (inl e))) =
    insert-ne _ n _ _ (inr (insert-ne _ n _ _ (inl e)))
register_default_handlers-Answers d n (inr (inl e)) =
    insert-ne _ n _ _ (inr (insert-ne _ n _ _ (inr (insert-ne _ n _ _ (inl e)))))
register_default_handlers-Answers d n (inl e) =
    insert-ne _ n _ _
      (inr (insert-ne _ n _ _ (inr (insert-ne _ n _ _ (inr (insert-ne _ n _ d (inl e)))))))

put_if_absent-errors :
    (path : Bytes) (m : HttpMethod) (h : Handler) (d : Dispatcher) (f : Found)
    → (put_if_absent path m h d f).error_handlers ≡ d.error_handlers
put_if_absent-errors path m h d (found g) = refl
put_if_absent-errors path m h d no_path = refl
put_if_absent-errors path m h d no_method = refl

register_at-Answers :
    (m : HttpMethod) (h : Handler) (d : Dispatcher) (o : Option Bytes) {d' : Dispatcher}
    → Answers d
    → register_at m h d o ≡ some d'
    → Answers d'
register_at-Answers m h d none a e = cc
register_at-Answers m h d (some path) {d'} a e =
    let same : register_clean path m h d ≡ d' = cc in
    subst Answers same (λ n k.
      subst (λ x. find n x ≢ none) (sym (put_if_absent-errors path m h d (lookup d path m)))
        (a n k))

pub register_handler-Answers :
    (path : Bytes) (m : HttpMethod) (h : Handler) (d : Dispatcher) {d' : Dispatcher}
    → Answers d
    → register_handler path m h d ≡ some d'
    → Answers d'
unfolding register_handler
register_handler-Answers path m h d a e = register_at-Answers m h d (clean_path path) a e

-- The library for logging throws: it cannot open a file, or register the name of a logger.
abbrev pub LibraryThrows : {K S : Type 0} → Spdlog K S → Exception → Type 0
LibraryThrows spd e = (name : Bytes) × Refuses spd name e

module _ {C K S : Type 0} (out : Outside C) (json : Json C) (log_json : LogJson C)
    (spd : Spdlog K S) where
  -- A builder whose components are ready.
  abbrev pub Ready : State out json log_json spd → Type 0
  Ready (b, k) =
      (c : Components S) × (b.initialized ≡ true) × (b.components ≡ some c) × IsReady Answers c

  with_logger-IsReady :
      {A : Dispatcher → Type 0} {E : ℕ → Type 0} {U : Type 0} {name : Bytes} {c : Components S}
      (r : Result (Logger S) × LoggerFactory S × K)
      → IsReady A c
      → Gives spd c.factory name r
      → Holds E
          (LibraryThrows spd)
          U
          (λ (x : Logger S × Components S × K). IsReady A x.1)
          (with_logger out json log_json spd c r)
  with_logger-IsReady {name = name} (Result.thrown e, f, k) h (refuses absent why) =
      throws (name, why)
  with_logger-IsReady (Result.returned l, f, k) h (gives of same made) = returns (record {
    config_is = h.config_is;
    kind_is = h.kind_is;
    port_is = h.port_is;
    not_running = h.not_running;
    logging_is = subst IsValid (sym same) h.logging_is;
    loggers_are = made;
    answers = h.answers;
  })

  pub take_logger-IsReady :
      {A : Dispatcher → Type 0} (E : ℕ → Type 0) (U : Type 0) (name : Bytes) (c : Components S)
      (k : K)
      → IsReady A c
      → Holds E
          (LibraryThrows spd)
          U
          (λ (x : Logger S × Components S × K). IsReady A x.1)
          (take_logger out json log_json spd name c k)
  take_logger-IsReady E U name c k h =
      with_logger-IsReady _ h (get_logger-Gives spd c.factory k name h.logging_is h.loggers_are)

  no_loggers : (config : LoggerConfig) → Made {S = S} (record { config = config; loggers = [] })
  unfolding find
  no_loggers config name l e = cc

  set_up-IsReady :
      (E : ℕ → Type 0) (c : Components S) (k : K)
      → IsReady (λ d. Unit) c
      → Holds E
          (LibraryThrows spd)
          ⊥
          (λ (x : Components S × K). IsReady Answers x.0)
          (set_up out json log_json spd c k)
  unfolding set_up
  set_up-IsReady E c k h =
      Holds-bind _ (take_logger-IsReady E ⊥ (codes "Server") c k h) λ (l, c1, k1) h1.
        Holds-bind _ (take_logger-IsReady E ⊥ (codes "RequestDispatcher") c1 k1 h1)
          λ (m, c2, k2) h2. returns (record {
            config_is = h2.config_is;
            kind_is = h2.kind_is;
            port_is = h2.port_is;
            not_running = h2.not_running;
            logging_is = h2.logging_is;
            loggers_are = h2.loggers_are;
            answers = register_default_handlers-Answers c2.dispatcher;
          })

  initialize_components-Ready :
      (b : WebHostBuilder C S) (k : K)
      → 1 ≤ out.hardware
      → b.initialized ≡ true
      → Holds
          (BadSettings out json log_json b.app_settings_path)
          (LibraryThrows spd)
          ⊥
          Ready
          (initialize_components out json log_json spd b k)
  unfolding initialize_components
  initialize_components-Ready b k some_thread set =
      let p = b.app_settings_path in
      Holds-bind Ready (load_json-Holds out json log_json spd (LibraryThrows spd) p) λ c at.
        Holds-bind Ready
          (load_configs-Holds out json log_json spd (LibraryThrows spd) p c some_thread at)
          λ (server, logging) (from, h, g).
            Holds-bind Ready
              (kind_or_exit-Holds out json log_json spd (LibraryThrows spd) p server _ from refl)
              λ kind e.
                Holds-bind Ready
                  (set_up-IsReady (BadSettings out json log_json p)
                    (new_components out json log_json spd server logging kind) k
                    (record {
                      config_is = h;
                      kind_is = e;
                      port_is = refl;
                      not_running = refl;
                      logging_is = g;
                      loggers_are = no_loggers logging;
                      answers = tt;
                    }))
                  λ (c', k') u. returns (c', set, refl, u)

  -- On hardware with a thread, `UseAppSettings` on a builder on which it was not called gives a builder whose
  -- components are ready, for every path, environment, file and configuration; unless the settings at the path cannot
  -- be used, which ends the program with the status of the reason, or the library for logging throws.
  pub use_settings-Ready :
      (path : Bytes) (b : WebHostBuilder C S) (k : K)
      → 1 ≤ out.hardware
      → b.initialized ≡ false
      → Holds
          (CannotUse out json log_json path)
          (LibraryThrows spd)
          ⊥
          Ready
          (use_settings out json log_json spd path b k)
  unfolding use_settings
  use_settings-Ready path b k some_thread fresh = rw fresh (
      Holds-map Ready (initialize_components-Ready _ k some_thread refl)
        (λ n bad. (_, settings_path-IsSettingsPath out path, bad)) (λ e t. t) (λ u. u) (λ t h. h))
