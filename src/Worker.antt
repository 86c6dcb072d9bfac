-- ===== src/Worker.antt =====
-- Workers of the thread pool: minet/src/threading/Worker.h, over any queue.
pub mod Keeps
mod Tests
use minet_core.Prelude.{
  ℕ, ◌+◌, ◌-◌, ◌/◌, ◌%◌, ◌^◌, List, [], ◌∷◌, ◌++◌, Option, none, some, Bool, true, false, ◌==◌,
  if◌then◌else◌,
}
use Prim.Native.Nat.{bit_or}

-- `x |= x >> n`
abbrev pub fill : ℕ → ℕ → ℕ
fill n x = bit_or x (x / 2 ^ n)

-- `MakePowerOfTwo`
unfoldable pub make_power_of_two : ℕ → ℕ
make_power_of_two x =
    if x == 0
    then 1
    else (fill 32 (fill 16 (fill 8 (fill 4 (fill 2 (fill 1 (x - 1)))))) + 1) % 2 ^ 64

-- What a worker uses of `Queue`: the constructor, `Push` and `Pop`.
pub record QueueOps (Q T : Type 0) : Type 0 where
  pub make : ℕ → Q
  pub push : Q → T → Bool × Q
  pub pop : Q → Option T × Q

-- `started` says that `_thread` runs `_Routine`.
pub record Worker (Q : Type 0) : Type 0 where
  pub queue : Q
  pub running : Bool
  pub started : Bool

-- A worker, its donor, and what tasks change. `looping` says that the worker is in its loop.
pub record Pair (Q W : Type 0) : Type 0 where
  pub own : Worker Q
  pub donor : Worker Q
  pub world : W
  pub looping : Bool

-- What happens next: the worker goes round its loop, the thread of the donor takes a task of its own, a task is
-- posted to either, or the worker is told to stop.
pub data Action (T : Type 0) : Type 0 where
  go_round : Action T
  donor_takes : Action T
  post_own : T → Action T
  post_donor : T → Action T
  stop_own : Action T

module _ {Q T : Type 0} (ops : QueueOps Q T) where
  -- The constructor
  abbrev pub create : ℕ → Worker Q
  create capacity = record {
    queue = ops.make (make_power_of_two capacity);
    running = false;
    started = false;
  }

  -- `Start`
  abbrev pub start : Worker Q → Worker Q
  start w = record w { running = true; started = true }

  -- `Stop`; the thread is joined when its loop has ended.
  abbrev pub stop : Worker Q → Worker Q
  stop w = record w { running = false }

  -- `Post`
  abbrev pub post : Worker Q → T → Bool × Worker Q
  post w t = let (ok, q) = ops.push w.queue t in (ok, record w { queue = q })

  -- `_Steal`, and `Pop` of the worker's own queue.
  abbrev pub steal : Worker Q → Option T × Worker Q
  steal w = let (o, q) = ops.pop w.queue in (o, record w { queue = q })

  module _ {W : Type 0} (run : T → W → W) where
    -- After `_Steal`; without a task the worker sleeps.
    abbrev pub after_steal : Pair Q W → Option T × Worker Q → Pair Q W
    after_steal p (none, d) = record p { donor = d }
    after_steal p (some t, d) = record p { donor = d; world = run t p.world }

    -- After `Pop`
    abbrev pub after_pop : Pair Q W → Option T × Worker Q → Pair Q W
    after_pop p (none, w) = after_steal (record p { own = w }) (steal p.donor)
    after_pop p (some t, w) = record p { own = w; world = run t p.world }

    -- A round of `_Routine`, from the load of `_running`.
    unfoldable pub routine_round : Pair Q W → Pair Q W
    routine_round p =
        if p.own.running then after_pop p (steal p.own) else record p { looping = false }

    -- The donor's thread, whose own donor is left out.
    abbrev pub after_take : Pair Q W → Option T × Worker Q → Pair Q W
    after_take p (none, d) = record p { donor = d }
    after_take p (some t, d) = record p { donor = d; world = run t p.world }

    unfoldable pub act : Action T → Pair Q W → Pair Q W
    act go_round p = if p.looping then routine_round p else p
    act donor_takes p = after_take p (steal p.donor)
    act (post_own t) p = record p { own = (post p.own t).1 }
    act (post_donor t) p = record p { donor = (post p.donor t).1 }
    act stop_own p = record p { own = stop p.own }

    unfoldable pub acts : List (Action T) → Pair Q W → Pair Q W
    acts [] p = p
    acts (a ∷ actions) p = acts actions (act a p)

    -- The tasks that were posted and taken, of which `Post` said so.
    abbrev pub posted : Action T → Pair Q W → List T
    posted (post_own t) p = if (post p.own t).0 then t ∷ [] else []
    posted (post_donor t) p = if (post p.donor t).0 then t ∷ [] else []
    posted _ p = []

    unfoldable pub accepted : List (Action T) → Pair Q W → List T
    accepted [] p = []
    accepted (a ∷ actions) p = posted a p ++ accepted actions (act a p)
