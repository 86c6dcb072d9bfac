-- ===== src/Pool/Ends.antt =====
-- The end of a pool: minet/src/threading/ThreadPool.cpp.
use minet_core.Prelude.{
  ℕ, zero, suc, ◌+◌, ◌≤◌, ◌<◌, List, [], some, none, ◌≡◌, refl, arith, length, set, length-set,
  element_at,
}
use minet_core.Pool.{WorkerOps, ThreadPool, stop_workers, destroy, move}
use minet_core.Pool.Turns.{IsValid}

module _ {W T : Type 0} (ops : WorkerOps W T) where
  stop_workers-some :
      (n i : ℕ) (ws : List W)
      → i + n ≤ length ws
      → (vs : List W) × (stop_workers ops n i ws ≡ some vs)
  unfolding stop_workers
  stop_workers-some zero i ws h = (ws, refl)
  stop_workers-some (suc n) i ws h =
      let (w, e, d) = element_at i ws (omega arith) in
      rw (e, stop_workers)
        (stop_workers-some n (suc i) (set ws i (ops.stop w))
          (omega (arith, length-set ws i (ops.stop w))))

  -- A pool that is in use can be destroyed.
  destroy-some : (p : ThreadPool W) → IsValid p → (vs : List W) × (destroy ops p ≡ some vs)
  destroy-some p v = stop_workers-some p.threads 0 p.workers (omega (arith, v.count))

  stop_workers-nil : (n : ℕ) → 0 < n → stop_workers ops n 0 [] ≡ none
  unfolding stop_workers
  stop_workers-nil zero h = absurd (omega arith)
  stop_workers-nil (suc n) h = refl

  -- What a move leaves cannot.
  destroy-move : (p : ThreadPool W) → IsValid p → destroy ops (move p).1 ≡ none
  destroy-move p v = stop_workers-nil p.threads v.some_thread
