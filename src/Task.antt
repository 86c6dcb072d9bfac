-- ===== src/Task.antt =====
-- Tasks: `Task` and `ValueTask` of minet/src/threading/Task.h, whose results have type `A`; for
-- `Task` it is `Unit`. `W` is what routines work on.
pub mod Once
mod Tests
use minet_core.Prelude.{Bool, true, false, Option, none, some, if◌then◌else◌}

-- How a routine ends.
pub data Ended (E A : Type 0) : Type 0 where
  value : A → Ended E A
  raised : E → Ended E A

abbrev pub Routine : Type 0 → Type 0 → Type 0 → Type 0
Routine W E A = W → Ended E A × W

-- What a call comes to: `std::runtime_error` with two texts, `std::future_error` on a `packaged_task`
-- that has been moved from, and `std::system_error` from `join`.
pub data Call (A : Type 0) : Type 0 where
  returned : A → Call A
  already_started : Call A
  not_started : Call A
  no_state : Call A
  not_joinable : Call A

-- `routine` is none when `_task` has been moved from. `thread` is the routine of a thread that has not
-- been joined.
pub record Task (W E A : Type 0) : Type 0 where
  pub routine : Option (Routine W E A)
  pub future_valid : Bool
  pub thread : Option (Routine W E A)

-- `Create`
abbrev pub create : {W E A : Type 0} → Routine W E A → Task W E A
create f = record { routine = some f; future_valid = false; thread = none }

-- The rest of `StartAsync`: `get_future`, and the start of the thread.
abbrev pub start_thread : {W E A : Type 0} → Option (Routine W E A) → Call (Task W E A)
start_thread none = no_state
start_thread (some f) = returned (record { routine = none; future_valid = true; thread = some f })

-- `StartAsync`
unfoldable pub start_async : {W E A : Type 0} → Task W E A → Call (Task W E A)
start_async t = if t.future_valid then already_started else start_thread t.routine

-- The thread runs the routine before it can be joined, and what it does to the world is seen then; `get` leaves the future without a state.
abbrev pub join :
    {W E A : Type 0} → Task W E A → W → Option (Routine W E A) → Call (Ended E A) × Task W E A × W
join t w none = (not_joinable, t, w)
join t w (some f) =
    let (r, w') = f w in (returned r, record t { future_valid = false; thread = none }, w')

-- `Await`
unfoldable pub await : {W E A : Type 0} → Task W E A → W → Call (Ended E A) × Task W E A × W
await t w = if t.future_valid then join t w t.thread else (not_started, t, w)

-- `Await` on what `StartAsync` returned
abbrev pub await_started :
    {W E A : Type 0} → Task W E A → W → Call (Task W E A) → Call (Ended E A) × Task W E A × W
await_started t w (returned t') = await t' w
await_started t w already_started = (already_started, t, w)
await_started t w not_started = (not_started, t, w)
await_started t w no_state = (no_state, t, w)
await_started t w not_joinable = (not_joinable, t, w)

-- `Run`
unfoldable pub run : {W E A : Type 0} → Task W E A → W → Call (Ended E A) × Task W E A × W
run t w = await_started t w (start_async t)

-- `Completed`
abbrev pub completed : {W E A : Type 0} → A → Call (Task W E A)
completed a = start_async (create (λ w. (value a, w)))

-- The move constructor: the new task, and what is left of the other. The thread is not moved.
abbrev pub move : {W E A : Type 0} → Task W E A → Task W E A × Task W E A
move t = (record t { thread = none }, record t { routine = none; future_valid = false })

-- The destructor: that of a thread that can be joined ends the program.
abbrev pub destroy_terminates : {W E A : Type 0} → Task W E A → Bool
destroy_terminates t = elim t.thread [ none ↦ false | some f ↦ true ]
