-- ===== src/Pool/Tests.antt =====
-- The theorems on the pool at concrete workers, which keep their tasks and have room for two.
use minet_core.Prelude.{ℕ, List, [], ◌∷◌, true, false, refl, arith, length, ltb, if◌then◌else◌}
use minet_core.Pool.{WorkerOps, ThreadPool}
use minet_core.Pool.Turns.{Submitted, submit-Submitted}

abbrev ops : WorkerOps (List ℕ) ℕ
ops = record {
  make = λ capacity. [];
  start = λ w i. w;
  post = λ w t. if ltb (length w) 2 then (true, t ∷ w) else (false, w);
  stop = λ w. [];
}

abbrev pool : ThreadPool (List ℕ)
pool = record { threads = 2; running = false; workers = [] ∷ (7 ∷ []) ∷ []; next = 5 }

submit-Submitted_example : Submitted ops pool 9
submit-Submitted_example =
    submit-Submitted ops pool 9 (record { some_thread = omega arith; count = refl })
