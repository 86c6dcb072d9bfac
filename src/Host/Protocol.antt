-- ===== src/Host/Protocol.antt =====
-- In which order the builder can be called: minet/src/core/WebHostBuilder.cpp.
use minet_core.Prelude.{
  ℕ, ◌≤◌, List, [], ◌∷◌, true, ◌≡◌, ◌⊎◌, inl, inr, refl, sym, ap, ◌∙◌, All, Bytes,
}
use mathlib.Core.Path.{subst}
use minet_core.Server.Config.{Json}
use minet_core.Logging.{LogJson, Spdlog}
use minet_core.Host.{
  exited, ◌>>=◌, WebHostBuilder, create, Outside, Call, use_app_settings, get, post, put, delete,
  error, logger, route, route_error, take_named, perform, perform_all, use_settings,
}
use minet_core.Host.Ready.{LibraryThrows, Ready, use_settings-Ready}
use minet_core.Host.Holds.{Holds, returns, exits, Holds-bind, Holds-map}
use minet_core.Host.Settings.{CannotUse}
use minet_core.Host.Kept.{IsOrdinary, HasBadRoute, bad_first, bad_later, perform-Ready}
use minet_core.Prelude.Result.{Exception}

-- `UseAppSettings` is called first, and not again.
pub data IsProtocol : List Call → Type 0 where
  no_calls : IsProtocol []
  settings_first :
      {path : Bytes} {cs : List Call} → All IsOrdinary cs → IsProtocol (use_app_settings path ∷ cs)

-- An exception comes after the settings were used, of the library for logging.
pub data Throws {K S : Type 0} (spd : Spdlog K S) : List Call → Exception → Type 0 where
  library_throws :
      {path : Bytes} {cs : List Call} {e : Exception}
      → LibraryThrows spd e
      → Throws spd (use_app_settings path ∷ cs) e

-- Behaviour is undefined after the settings were used, for a path that `CleanPath` is not defined for.
pub data Undefines : List Call → Type 0 where
  route_undefines :
      {path : Bytes} {cs : List Call} → HasBadRoute cs → Undefines (use_app_settings path ∷ cs)

-- A call is of `UseAppSettings` or it is not.
IsOrdinary-cases : (c : Call) → IsOrdinary c ⊎ ((path : Bytes) × (c ≡ use_app_settings path))
IsOrdinary-cases (use_app_settings path) = inr (path, refl)
IsOrdinary-cases (get path h) = inl tt
IsOrdinary-cases (post path h) = inl tt
IsOrdinary-cases (put path h) = inl tt
IsOrdinary-cases (delete path h) = inl tt
IsOrdinary-cases (error code h) = inl tt
IsOrdinary-cases (logger name) = inl tt

-- `UseAppSettings` was called again.
abbrev Again : List Call → ℕ → Type 0
Again cs n = (n ≡ 1) × (All IsOrdinary cs → ⊥)

module _ {C : Type 0} (out : Outside C) (json : Json C) (log_json : LogJson C) where
  -- The status with which calls can end the program: 2 when another call comes first, 2 or 3 when the settings
  -- cannot be used, and 1 when `UseAppSettings` is called again.
  pub data Status : List Call → ℕ → Type 0 where
    too_early : {c : Call} {cs : List Call} → IsOrdinary c → Status (c ∷ cs) 2
    not_usable :
        {path : Bytes} {cs : List Call} {n : ℕ}
        → CannotUse out json log_json path n
        → Status (use_app_settings path ∷ cs) n
    twice :
        {path : Bytes} {cs : List Call}
        → (All IsOrdinary cs → ⊥)
        → Status (use_app_settings path ∷ cs) 1

module _ {C K S : Type 0} (out : Outside C) (json : Json C) (log_json : LogJson C)
    (spd : Spdlog K S) where
  use_settings-again :
      (path : Bytes) (b : WebHostBuilder C S) (k : K)
      → b.initialized ≡ true
      → use_settings out json log_json spd path b k ≡ exited 1
  unfolding use_settings
  use_settings-again path b k set = rw set refl

  perform_all-again :
      (path : Bytes) (c : Call) (cs : List Call) (b : WebHostBuilder C S) (k : K)
      → c ≡ use_app_settings path
      → b.initialized ≡ true
      → perform_all out json log_json spd (c ∷ cs) (b, k) ≡ exited 1
  unfolding perform_all perform
  perform_all-again path c cs b k e set =
      ap (λ c. perform out json log_json spd c (b, k) >>= perform_all out json log_json spd cs) e
      ∙ ap (λ r. r >>= perform_all out json log_json spd cs) (use_settings-again path b k set)

  perform_all-Again :
      (cs : List Call) (b : WebHostBuilder C S) (k : K)
      → Ready out json log_json spd (b, k)
      → Holds
          (Again cs)
          (LibraryThrows spd)
          (HasBadRoute cs)
          (λ t. All IsOrdinary cs)
          (perform_all out json log_json spd cs (b, k))
  unfolding perform_all
  perform_all-Again [] b k ready = returns tt
  perform_all-Again (c ∷ cs) b k ready = elim (IsOrdinary-cases c) [
    | inr (path, e) ↦
        subst
          (Holds (Again (c ∷ cs)) (LibraryThrows spd) (HasBadRoute (c ∷ cs))
            (λ t. All IsOrdinary (c ∷ cs)))
          (sym (perform_all-again path c cs b k e ready.1))
          (exits (refl, λ os. subst IsOrdinary e os.0))
    | inl o ↦
        Holds-bind _
          (Holds-map (Ready out json log_json spd)
            (perform-Ready out json log_json spd c b k o ready) (λ n bad. absurd bad) (λ x t. t)
            bad_first (λ t h. h))
          λ (b', k') h.
            Holds-map _ (perform_all-Again cs b' k' h) (λ n (e, more). (e, λ os. more os.1))
              (λ x t. t) bad_later (λ t os. (o, os))
  ]

  -- A call that is not of `UseAppSettings` ends the program when it comes first.
  perform-create :
      (c : Call) (k : K) → IsOrdinary c → perform out json log_json spd c (create, k) ≡ exited 2
  unfolding perform route route_error take_named
  perform-create (use_app_settings path) k o = absurd o
  perform-create (get path h) k o = refl
  perform-create (post path h) k o = refl
  perform-create (put path h) k o = refl
  perform-create (delete path h) k o = refl
  perform-create (error code h) k o = refl
  perform-create (logger name) k o = refl

  -- What calls of a new builder can come to.
  abbrev Comes : (cs : List Call) → K → Type 0
  Comes cs k =
      Holds (Status out json log_json cs) (Throws spd cs) (Undefines cs) (λ t. IsProtocol cs)
        (perform_all out json log_json spd cs (create, k))

  perform_all-none : (k : K) → Comes [] k
  unfolding perform_all
  perform_all-none k = returns no_calls

  perform_all-early :
      (c : Call) (cs : List Call) (k : K)
      → IsOrdinary c
      → perform_all out json log_json spd (c ∷ cs) (create, k) ≡ exited 2
  unfolding perform_all
  perform_all-early c cs k o =
      ap (λ r. r >>= perform_all out json log_json spd cs) (perform-create c k o)

  perform_all-first :
      (path : Bytes) (cs : List Call) (k : K)
      → 1 ≤ out.hardware
      → Comes (use_app_settings path ∷ cs) k
  unfolding perform_all perform
  perform_all-first path cs k some_thread =
      Holds-bind _
        (Holds-map (Ready out json log_json spd)
          (use_settings-Ready out json log_json spd path create k some_thread refl)
          (λ n f. not_usable f) (λ x t. library_throws t) (λ u. absurd u) (λ t h. h))
        λ (b, k') ready.
          Holds-map _ (perform_all-Again cs b k' ready)
            (λ n (e, more).
              subst (Status out json log_json (use_app_settings path ∷ cs)) (sym e) (twice more))
            (λ x t. library_throws t) route_undefines (λ t os. settings_first os)

  -- Whatever calls are made of a new builder, on hardware with a thread: when all of them return,
  -- `UseAppSettings` was the first call, and the only one of its kind. When another call comes first, the program
  -- ends with status 2. Otherwise it ends with 2 or 3 only when the settings cannot be used, and with 1 only
  -- when `UseAppSettings` is called again; an exception comes only from the library for logging, and behaviour
  -- is undefined only when a handler is registered for a path that `CleanPath` is not defined for.
  pub perform_all-IsProtocol :
      (cs : List Call) (k : K)
      → 1 ≤ out.hardware
      → Holds
          (Status out json log_json cs)
          (Throws spd cs)
          (Undefines cs)
          (λ t. IsProtocol cs)
          (perform_all out json log_json spd cs (create, k))
  perform_all-IsProtocol [] k some_thread = perform_all-none k
  perform_all-IsProtocol (c ∷ cs) k some_thread = elim (IsOrdinary-cases c) [
    | inl o ↦
        subst
          (Holds (Status out json log_json (c ∷ cs)) (Throws spd (c ∷ cs)) (Undefines (c ∷ cs))
            (λ t. IsProtocol (c ∷ cs)))
          (sym (perform_all-early c cs k o)) (exits (too_early o))
    | inr (path, e) ↦
        subst (λ c. Comes (c ∷ cs) k) (sym e) (perform_all-first path cs k some_thread)
  ]
