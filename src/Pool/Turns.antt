-- ===== src/Pool/Turns.antt =====
-- Whose turn it is: minet/src/threading/ThreadPool.h and ThreadPool.cpp.
use minet_core.Prelude.{
  ℕ, zero, suc, ◌+◌, ◌%◌, ◌^◌, ◌<◌, List, [], ◌∷◌, some, ◌≡◌, refl, ap, ◌∙◌, arith, length,
  get_elem?, set, length-set, get_elem?-set_self, get_elem?-set_ne, element_at, ◌==◌, if◌then◌else◌,
  Bool-cases, inl, inr,
}
use minet_core.Pool.{WorkerOps, ThreadPool, make_workers, start_workers, create, post_at, submit}

pub record IsValid {W : Type 0} (p : ThreadPool W) : Type 0 where
  pub some_thread : 0 < p.threads
  pub count : length p.workers ≡ p.threads

get_elem?-set :
    {W : Type 0} (ws : List W) (i : ℕ) (w : W)
    → i < length ws
    → (j : ℕ) → get_elem? (set ws i w) j ≡ (if j == i then some w else get_elem? ws j)
get_elem?-set ws i w h j = elim (Bool-cases (j == i)) [
  | inl e ↦
      let same : j ≡ i = ground arith in
      rw e (ap (get_elem? (set ws i w)) same ∙ get_elem?-set_self ws i w h)
  | inr e ↦ rw e (get_elem?-set_ne ws i j w (λ x. ground arith))
]

module _ {W T : Type 0} (ops : WorkerOps W T) where
  -- What a call of `Submit` does.
  pub record Submitted (p : ThreadPool W) (t : T) : Type 0 where
    pub worker : W
    pub after : ThreadPool W
    pub turn : get_elem? p.workers (p.next % p.threads) ≡ some worker
    pub result : submit ops p t ≡ some ((ops.post worker t).0, after)
    pub workers_are :
        (j : ℕ)
        → get_elem? after.workers j
          ≡ (if j == p.next % p.threads then some (ops.post worker t).1 else get_elem? p.workers j)
    pub moved : after.next ≡ (p.next + 1) % 2 ^ 64
    pub valid : IsValid after

  -- A submitted task goes to the worker whose turn it is and to no other, the result is that
  -- worker's, and the turn moves on also when the worker is full.
  pub submit-Submitted : (p : ThreadPool W) (t : T) → IsValid p → Submitted p t
  unfolding submit
  submit-Submitted p t v =
      let i = p.next % p.threads in
      let bound : i < length p.workers = omega (arith, v.count, v.some_thread) in
      let (w, e, d) = element_at i p.workers bound in
      let w' = (ops.post w t).1 in
      record {
        worker = w;
        after = record p { next = (p.next + 1) % 2 ^ 64; workers = set p.workers i w' };
        turn = e;
        result = ap (post_at ops (record p { next = (p.next + 1) % 2 ^ 64 }) i t) e;
        workers_are = get_elem?-set p.workers i w' bound;
        moved = refl;
        valid = record { some_thread = v.some_thread; count = length-set p.workers i w' ∙ v.count };
      }

  length-make_workers : (n capacity : ℕ) → length (make_workers ops n capacity) ≡ n
  unfolding make_workers
  length-make_workers zero capacity = refl
  length-make_workers (suc n) capacity = ap suc (length-make_workers n capacity)

  length-start_workers :
      (threads i : ℕ) (ws : List W) → length (start_workers ops threads i ws) ≡ length ws
  unfolding start_workers
  length-start_workers threads i [] = refl
  length-start_workers threads i (w ∷ ws) = ap suc (length-start_workers threads (suc i) ws)

  start_workers-make_workers :
      (threads n capacity i j : ℕ)
      → j < n
      → get_elem? (start_workers ops threads i (make_workers ops n capacity)) j
        ≡ some (ops.start (ops.make capacity) ((i + j + 1) % threads))
  unfolding start_workers make_workers
  start_workers-make_workers threads zero capacity i j h = absurd (omega arith)
  start_workers-make_workers threads (suc n) capacity i zero h =
      ap (λ k. some (ops.start (ops.make capacity) (k % threads))) {x = i + 1} {y = i + 0 + 1}
        (omega arith)
  start_workers-make_workers threads (suc n) capacity i (suc j) h =
      start_workers-make_workers threads n capacity (suc i) j (omega arith)
      ∙ ap (λ k. some (ops.start (ops.make capacity) (k % threads))) {x = suc i + j + 1}
          {y = i + suc j + 1} (omega arith)

  -- A new pool has as many workers as threads, and each was started with the next one in the ring to
  -- steal from.
  pub create-ring :
      (threads capacity j : ℕ)
      → j < threads
      → IsValid (create ops threads capacity)
        × (get_elem? (create ops threads capacity).workers j
            ≡ some (ops.start (ops.make capacity) ((j + 1) % threads)))
  unfolding create
  create-ring threads capacity j h = (
    record {
      some_thread = omega arith;
      count =
          length-start_workers threads 0 (make_workers ops threads capacity)
          ∙ length-make_workers threads capacity;
    },
    start_workers-make_workers threads threads capacity 0 j h
        ∙ ap (λ x. some (ops.start (ops.make capacity) (x % threads))) {x = 0 + j + 1} {y = j + 1}
            (omega arith),
  )
