-- ===== src/Native/Runs.antt =====
-- How often handlers of signals run: minet/src/utils/Native.cpp.
use minet_core.Prelude.{
  ℕ, zero, suc, [], ◌∷◌, none, some, Bool, true, false, if◌then◌else◌, ◌≡◌, refl, ap, ◌∙◌, arith,
  min, nat_eq,
}
use minet_core.Prelude.Int.{ℤ, is_negative}
use minet_core.Prelude.Map.{Map, find, insert, erase, find-insert_self}
use minet_core.Native.{
  Registration, Disposition, Signals, set_signal_handler, run_found, signal_handler,
}

-- A signal that comes a number of times, as long as the system calls `SignalHandler` for it: that it does so only once
-- for a handler that is set for one signal is left out.
unfoldable pub deliver : {K W : Type 0} → ℕ → ℕ → Signals K W → Signals K W
deliver sig zero s = s
deliver sig (suc n) s = deliver sig n (signal_handler sig s)

-- A handler that runs a number of times.
abbrev pub repeat : {W : Type 0} → ℕ → (W → W) → W → W
repeat zero f w = w
repeat (suc n) f w = repeat n f (f w)

find-erase-insert :
    {W : Type 0} (sig : ℕ) (r : Registration W) (m : Map ℕ (Registration W))
    → find sig (erase sig m) ≡ none
    → find sig (erase sig (insert sig r m)) ≡ none
unfolding find erase insert
find-erase-insert sig r [] h = ground arith
find-erase-insert sig r ((j, v) ∷ m) h = ground (arith, find-erase-insert sig r m)

run_found-some :
    {K W : Type 0} (sig : ℕ) (s : Signals K W) (r : Registration W)
    → find sig s.handlers ≡ some r
    → signal_handler sig s ≡ run_found sig s (some r)
unfolding signal_handler
run_found-some sig s r h = ap (run_found sig s) h

deliver-none :
    {K W : Type 0} (sig n : ℕ) (s : Signals K W) → find sig s.handlers ≡ none → deliver sig n s ≡ s
unfolding deliver signal_handler
deliver-none sig zero s h = refl
deliver-none sig (suc n) s h =
    ap (λ o. deliver sig n (run_found sig s o)) h ∙ deliver-none sig n s h

deliver-always :
    {K W : Type 0} (sig n : ℕ) (s : Signals K W) (f : W → W)
    → find sig s.handlers ≡ some (record { once = false; handler = f })
    → (deliver sig n s).world ≡ repeat n f s.world
unfolding deliver
deliver-always sig zero s f h = refl
deliver-always sig (suc n) s f h =
    ap (λ (t : Signals _ _). (deliver sig n t).world) (run_found-some sig s _ h)
    ∙ deliver-always sig n (run_found sig s (some (record { once = false; handler = f }))) f h

deliver-once :
    {K W : Type 0} (sig n : ℕ) (s : Signals K W) (f : W → W)
    → find sig s.handlers ≡ some (record { once = true; handler = f })
    → find sig (erase sig s.handlers) ≡ none
    → (deliver sig n s).world ≡ repeat (min n 1) f s.world
unfolding deliver
deliver-once sig zero s f h g = refl
deliver-once sig (suc n) s f h g =
    let one : 1 ≡ min (suc n) 1 = omega arith in
    let t = run_found sig s (some (record { once = true; handler = f })) in
    ap (λ (t : Signals _ _). (deliver sig n t).world) (run_found-some sig s _ h)
    ∙ ap (λ (t : Signals _ _). t.world) (deliver-none sig n t g)
    ∙ ap (λ k. repeat k f s.world) one

deliver-registered :
    {K W : Type 0} (sig n : ℕ) (f : W → W) (once : Bool) (s : Signals K W)
    → find sig s.handlers ≡ some (record { once = once; handler = f })
    → find sig (erase sig s.handlers) ≡ none
    → (deliver sig n s).world ≡ repeat (if once then min n 1 else n) f s.world
deliver-registered sig n f true s h g = deliver-once sig n s f h g
deliver-registered sig n f false s h g = deliver-always sig n s f h

-- When `sigaction` does not fail for `SetSignalHandler`, in a map with at most one entry for the signal: of any number of signals that come
-- after it, a handler for once runs at the first, and another handler at each.
pub set_signal_handler-deliver :
    {K W : Type 0} (sigaction : K → ℕ → Disposition → ℤ × K) (sig n : ℕ) (f : W → W) (once : Bool)
    (s : Signals K W)
    → is_negative (sigaction s.kernel sig (Disposition.handled once)).0 ≡ false
    → find sig (erase sig s.handlers) ≡ none
    → (deliver sig n (set_signal_handler sigaction sig f once s).1).world
      ≡ repeat (if once then min n 1 else n) f s.world
unfolding set_signal_handler
set_signal_handler-deliver sigaction sig n f once s h g = rw h (
    deliver-registered sig n f once
      (record s {
        kernel = (sigaction s.kernel sig (Disposition.handled once)).1;
        handlers = insert sig (record { once = once; handler = f }) s.handlers;
      })
      (find-insert_self sig _ s.handlers) (find-erase-insert sig _ s.handlers g))
