-- ===== src/Native/Tests.antt =====
-- Signals of minet/src/utils/Native.cpp, and the theorem at a concrete input.
use minet_core.Prelude.{ℕ, suc, [], none, true, false, ◌≡◌, refl, nat_eq}
use minet_core.Prelude.Int.{ℤ, pos}
use minet_core.Prelude.Map.{find, insert, erase}
use minet_core.Native.{
  Signals, Disposition, set_signal_handler, remove_signal_handler, signal_handler,
}
use minet_core.Native.Runs.{deliver, repeat, set_signal_handler-deliver}

-- A system where every call succeeds.
abbrev succeeds : Unit {0} → ℕ → Disposition → ℤ × Unit {0}
succeeds k sig d = (pos 0, k)

abbrev none_yet : Signals Unit ℕ
none_yet = record { handlers = []; kernel = tt; world = 0 }

-- A handler that was removed does not run.
removed :
    (deliver 2 3
      (remove_signal_handler succeeds 2
        (set_signal_handler succeeds 2 suc false none_yet).1).1).world
    ≡ 0
unfolding deliver set_signal_handler remove_signal_handler signal_handler find insert erase
removed = refl

no_entry : find 2 (erase 2 none_yet.handlers) ≡ none
unfolding find erase
no_entry = refl

set_signal_handler-deliver_example :
    (deliver 2 3 (set_signal_handler succeeds 2 suc true none_yet).1).world ≡ repeat 1 suc 0
set_signal_handler-deliver_example =
    set_signal_handler-deliver succeeds 2 3 suc true none_yet refl no_entry
