-- ===== src/Task/Tests.antt =====
-- Runs of the tasks of minet/src/threading/Task.h, and the theorems at concrete inputs.
use minet_core.Prelude.{ℕ, suc, [], ◌∷◌}
use minet_core.Task.{value, create, Routine}
use minet_core.Task.Once.{Stage, start_op, await_op, run_op, perform_all, perform_all-create}

abbrev count : Routine ℕ ℕ ℕ
count n = (value n, suc n)

perform_all-create_example :
    Stage count 4
      (perform_all (await_op ∷ start_op ∷ start_op ∷ await_op ∷ run_op ∷ []) (create count, 4))
perform_all-create_example =
    perform_all-create count 4 (await_op ∷ start_op ∷ start_op ∷ await_op ∷ run_op ∷ [])
