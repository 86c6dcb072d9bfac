-- ===== src/Pool.antt =====
-- The thread pool: `ThreadPool` of minet/src/threading/ThreadPool.h and ThreadPool.cpp, over any
-- workers.
pub mod Turns
pub mod Ends
mod Tests
use minet_core.Prelude.{
  ℕ, zero, suc, ◌+◌, ◌%◌, ◌^◌, List, [], ◌∷◌, Bool, false, Option, none, some, get_elem?, set,
}

-- What the pool uses of `Worker`: its constructor, `Start` with a neighbour to steal from, given by
-- its place, `Post`, which says whether the worker took the task, and `Stop`.
pub record WorkerOps (W T : Type 0) : Type 0 where
  pub make : ℕ → W
  pub start : W → ℕ → W
  pub post : W → T → Bool × W
  pub stop : W → W

pub record ThreadPool (W : Type 0) : Type 0 where
  pub threads : ℕ
  pub running : Bool
  pub workers : List W
  pub next : ℕ

module _ {W T : Type 0} (ops : WorkerOps W T) where
  -- The first loop of the constructor.
  unfoldable pub make_workers : ℕ → ℕ → List W
  make_workers zero capacity = []
  make_workers (suc n) capacity = ops.make capacity ∷ make_workers n capacity

  -- The second loop, from the worker at a place on.
  unfoldable pub start_workers : ℕ → ℕ → List W → List W
  start_workers threads i [] = []
  start_workers threads i (w ∷ ws) =
      ops.start w ((i + 1) % threads) ∷ start_workers threads (suc i) ws

  -- The constructor.
  unfoldable pub create : ℕ → ℕ → ThreadPool W
  create threads capacity = record {
    threads = threads;
    running = false;
    workers = start_workers threads 0 (make_workers threads capacity);
    next = 0;
  }

  -- The call of `Post` on the worker at that place. A place with no worker gives `none`.
  abbrev pub post_at : ThreadPool W → ℕ → T → Option W → Option (Bool × ThreadPool W)
  post_at p i t none = none
  post_at p i t (some w) =
      let (r, w') = ops.post w t in some (r, record p { workers = set p.workers i w' })

  -- `Submit`. `_next` is a `size_t`.
  unfoldable pub submit : ThreadPool W → T → Option (Bool × ThreadPool W)
  submit p t =
      let i = p.next % p.threads in
      post_at (record p { next = (p.next + 1) % 2 ^ 64 }) i t (get_elem? p.workers i)

  -- The loop of the destructor, from a place on. A place with no worker gives `none`.
  unfoldable pub stop_workers : ℕ → ℕ → List W → Option (List W)
  stop_workers zero i ws = some ws
  stop_workers (suc n) i ws = elim (get_elem? ws i) [
    | none ↦ none
    | some w ↦ stop_workers n (suc i) (set ws i (ops.stop w))
  ]

  -- The destructor
  abbrev pub destroy : ThreadPool W → Option (List W)
  destroy p = stop_workers p.threads 0 p.workers

-- The move constructor: the new pool, and what is left of the other.
abbrev pub move : {W : Type 0} → ThreadPool W → ThreadPool W × ThreadPool W
move p = (p, record p { workers = [] })
