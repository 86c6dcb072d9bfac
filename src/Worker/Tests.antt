-- ===== src/Worker/Tests.antt =====
-- A worker and its donor over queues that are lists, and the theorem at a concrete input.
use minet_core.Prelude.{
  ℕ, List, [], ◌∷◌, ◌++◌, Option, none, some, Bool, true, false, ltb, length, ◌≡◌, refl,
  if◌then◌else◌,
}
use minet_core.Worker.{
  QueueOps, Pair, Action, go_round, donor_takes, post_own, post_donor, stop_own, create, start,
  routine_round, act, acts, make_power_of_two,
}
use minet_core.Worker.Keeps.{IsQueue, Pushed, Popped, log}

-- A capacity is rounded up to a power of two; one above 2 ^ 63 gives 0.
powers :
    (make_power_of_two 0 ≡ 1)
    × (make_power_of_two 1 ≡ 1)
    × (make_power_of_two 1000 ≡ 1024)
    × (make_power_of_two 1024 ≡ 1024)
    × (make_power_of_two 9223372036854775809 ≡ 0)
unfolding make_power_of_two
powers = (refl, refl, refl, refl, refl)

abbrev pop_list : List ℕ → Option ℕ × List ℕ
pop_list [] = (none, [])
pop_list (t ∷ ts) = (some t, ts)

-- A queue of at most two tasks.
abbrev ops : QueueOps (List ℕ) ℕ
ops = record {
  make = λ capacity. [];
  push = λ q t. if ltb (length q) 2 then (true, q ++ (t ∷ [])) else (false, q);
  pop = λ q. pop_list q;
}

if-Pushed :
    (b : Bool) (q : List ℕ) (t : ℕ)
    → Pushed (λ q. q) q t (if b then (true, q ++ (t ∷ [])) else (false, q))
if-Pushed true q t = refl
if-Pushed false q t = refl

pop_list-Popped : (q : List ℕ) → Popped (λ q. q) q (pop_list q)
pop_list-Popped [] = refl
pop_list-Popped (t ∷ ts) = refl

ops-IsQueue : IsQueue ops (λ q. q)
ops-IsQueue = record { push_is = λ q t. if-Pushed (ltb (length q) 2) q t; pop_is = pop_list-Popped }

abbrev pair : Pair (List ℕ) (List ℕ)
pair = record {
  own = start ops (create ops 2);
  donor = start ops (create ops 2);
  world = [];
  looping = true;
}

-- The third task for the donor is refused, and the worker steals one of the others.
abbrev actions : List (Action ℕ)
actions =
    post_donor 1
    ∷ post_donor 2
    ∷ post_donor 3
    ∷ post_own 4
    ∷ go_round
    ∷ go_round
    ∷ stop_own
    ∷ go_round
    ∷ donor_takes
    ∷ []

run_actions : (acts ops log actions pair).world ≡ 4 ∷ 1 ∷ 2 ∷ []
unfolding acts act routine_round make_power_of_two
run_actions = refl
