-- ===== src/Native.antt =====
-- Handlers of signals: minet/src/utils/Native.cpp.
pub mod Runs
mod Tests
use minet_core.Prelude.{ℕ, zero, suc, Option, none, some, Bool, if◌then◌else◌, nat_eq}
use minet_core.Prelude.Int.{ℤ, pos, is_negative}
use minet_core.Prelude.Map.{Map, find, insert, erase}

-- `SignalHandlerRegistration`; a handler changes a world.
pub record Registration (W : Type 0) : Type 0 where
  pub once : Bool
  pub handler : W → W

-- What `sigaction` is asked for: the handler of the program, or the default.
pub data Disposition : Type 0 where
  handled : Bool → Disposition
  default : Disposition

-- `sSignalHandlers`, the kernel, and the world of the handlers.
pub record Signals (K W : Type 0) : Type 0 where
  pub handlers : Map ℕ (Registration W)
  pub kernel : K
  pub world : W

module _ {K W : Type 0} (sigaction : K → ℕ → Disposition → ℤ × K) where
  -- `SetSignalHandler`, where `MINET_TRY` returns a negative number.
  unfoldable pub set_signal_handler : ℕ → (W → W) → Bool → Signals K W → ℤ × Signals K W
  set_signal_handler sig handler once s =
      let (r, k) = sigaction s.kernel sig (handled once) in
      if is_negative r then (r, record s { kernel = k }) else (
        pos 0,
        record s {
          kernel = k;
          handlers = insert sig (record { once = once; handler = handler }) s.handlers;
        },
      )

  -- `RemoveSignalHandler`
  unfoldable pub remove_signal_handler : ℕ → Signals K W → ℤ × Signals K W
  remove_signal_handler sig s =
      let (r, k) = sigaction s.kernel sig default in
      (
        (if is_negative r then r else pos 0),
        record s { kernel = k; handlers = erase sig s.handlers },
      )

-- The end of `_SignalHandler`. A handler that changes the handlers itself is left out.
abbrev pub run_found : {K W : Type 0} → ℕ → Signals K W → Option (Registration W) → Signals K W
run_found sig s none = s
run_found sig s (some r) = record s {
  world = r.handler s.world;
  handlers = if r.once then erase sig s.handlers else s.handlers;
}

-- `_SignalHandler`
unfoldable pub signal_handler : {K W : Type 0} → ℕ → Signals K W → Signals K W
signal_handler sig s = run_found sig s (find sig s.handlers)
