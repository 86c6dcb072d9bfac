-- ===== src/Worker/Keeps.antt =====
-- Where tasks go, over a queue that keeps them: minet/src/threading/Worker.h.
use minet_core.Prelude.{
  ℕ, ◌+◌, List, [], ◌∷◌, ◌++◌, Option, none, some, Bool, true, false, if◌then◌else◌, ◌≡◌, refl, ap,
  ◌∙◌, arith,
}
use minet_core.Worker.{
  QueueOps, Pair, Action, go_round, donor_takes, post_own, post_donor, stop_own, steal, after_steal,
  after_pop, after_take, routine_round, act, acts, posted, accepted,
}

-- How many elements pass a test.
abbrev pub count : {T : Type 0} → (T → Bool) → List T → ℕ
count p [] = 0
count p (t ∷ ts) = (if p t then 1 else 0) + count p ts

-- A task that is run is written down at the end.
abbrev pub log : {T : Type 0} → T → List T → List T
log t done = done ++ (t ∷ [])

-- What holds `ts` after a call of `Push` with `t`.
abbrev pub Pushed : {Q T : Type 0} → (Q → List T) → List T → T → Bool × Q → Type 0
Pushed contents ts t (true, q) = contents q ≡ ts ++ (t ∷ [])
Pushed contents ts t (false, q) = contents q ≡ ts

-- What holds `ts` after a call of `Pop`.
abbrev pub Popped : {Q T : Type 0} → (Q → List T) → List T → Option T × Q → Type 0
Popped contents ts (none, q) = contents q ≡ ts
Popped contents ts (some t, q) = ts ≡ t ∷ contents q

-- A queue of tasks: `Push` that succeeds adds its task at the end, `Pop` that succeeds takes the first task, and calls
-- that fail change nothing.
pub record IsQueue {Q T : Type 0} (ops : QueueOps Q T) (contents : Q → List T) : Type 0 where
  pub push_is : (q : Q) (t : T) → Pushed contents (contents q) t (ops.push q t)
  pub pop_is : (q : Q) → Popped contents (contents q) (ops.pop q)

count-append :
    {T : Type 0} (p : T → Bool) (xs ys : List T) → count p (xs ++ ys) ≡ count p xs + count p ys
count-append p [] ys = omega arith
count-append p (x ∷ xs) ys = omega (arith, count-append p xs ys)

-- How many of the tasks that were run, and of those that wait, pass a test.
abbrev pub total : {Q T : Type 0} → (Q → List T) → (T → Bool) → Pair Q (List T) → ℕ
total contents p s =
    count p s.world + count p (contents s.own.queue) + count p (contents s.donor.queue)

module _ {Q T : Type 0} (ops : QueueOps Q T) (contents : Q → List T) (laws : IsQueue ops contents)
    (p : T → Bool) where
  count-log : (t : T) (ts : List T) → count p (log t ts) ≡ count p ts + count p (t ∷ [])
  count-log t ts = count-append p ts (t ∷ [])

  Pushed-count :
      (ts : List T) (t : T) (r : Bool × Q)
      → Pushed contents ts t r
      → count p (contents r.1) ≡ count p ts + count p (if r.0 then t ∷ [] else [])
  Pushed-count ts t (true, q) h = ap (count p) h ∙ count-append p ts (t ∷ [])
  Pushed-count ts t (false, q) h = omega (arith, ap (count p) h)

  after_steal-total :
      (s : Pair Q (List T)) (r : Option T × Q)
      → Popped contents (contents s.donor.queue) r
      → total contents p (after_steal ops log s (r.0, record (s.donor) { queue = r.1 }))
        ≡ total contents p s
  after_steal-total s (none, q) h = omega (arith, ap (count p) h)
  after_steal-total s (some t, q) h = omega (arith, ap (count p) h, count-log t s.world)

  after_pop-total :
      (s : Pair Q (List T)) (r : Option T × Q)
      → Popped contents (contents s.own.queue) r
      → total contents p (after_pop ops log s (r.0, record (s.own) { queue = r.1 }))
        ≡ total contents p s
  after_pop-total s (none, q) h =
      after_steal-total (record s { own = record (s.own) { queue = q } }) (ops.pop s.donor.queue)
        (laws.pop_is s.donor.queue)
      ∙ omega (arith, ap (count p) h)
  after_pop-total s (some t, q) h = omega (arith, ap (count p) h, count-log t s.world)

  after_take-total :
      (s : Pair Q (List T)) (r : Option T × Q)
      → Popped contents (contents s.donor.queue) r
      → total contents p (after_take ops log s (r.0, record (s.donor) { queue = r.1 }))
        ≡ total contents p s
  after_take-total s (none, q) h = omega (arith, ap (count p) h)
  after_take-total s (some t, q) h = omega (arith, ap (count p) h, count-log t s.world)

  if-total :
      (b : Bool) (s t : Pair Q (List T)) {n : ℕ}
      → total contents p s ≡ n
      → total contents p t ≡ n
      → total contents p (if b then s else t) ≡ n
  if-total true s t h g = h
  if-total false s t h g = g

  routine_round-total :
      (s : Pair Q (List T)) → total contents p (routine_round ops log s) ≡ total contents p s
  unfolding routine_round
  routine_round-total s =
      if-total s.own.running (after_pop ops log s (steal ops s.own)) (record s { looping = false })
        (after_pop-total s (ops.pop s.own.queue) (laws.pop_is s.own.queue)) refl

  act-total :
      (a : Action T) (s : Pair Q (List T))
      → total contents p (act ops log a s) ≡ total contents p s + count p (posted ops log a s)
  unfolding act
  act-total go_round s =
      if-total s.looping (routine_round ops log s) s (routine_round-total s) refl ∙ omega arith
  act-total donor_takes s =
      after_take-total s (ops.pop s.donor.queue) (laws.pop_is s.donor.queue) ∙ omega arith
  act-total (post_own t) s = omega (
    arith,
    Pushed-count (contents s.own.queue) t (ops.push s.own.queue t) (laws.push_is s.own.queue t),
  )
  act-total (post_donor t) s = omega (
    arith,
    Pushed-count (contents s.donor.queue) t (ops.push s.donor.queue t)
        (laws.push_is s.donor.queue t),
  )
  act-total stop_own s = omega arith

  -- Over a queue with the laws of `IsQueue`, whatever a worker, the thread of its donor and those that post and stop
  -- do, in any order: of the tasks that pass any test, those that were run and those that wait in the two queues
  -- are as many as there were at the start, and those that `Post` accepted. This is of queues with these
  -- laws, whose calls come one after the other; it is not shown of Queue.h.
  pub acts-total :
      (actions : List (Action T)) (s : Pair Q (List T))
      → total contents p (acts ops log actions s)
        ≡ total contents p s + count p (accepted ops log actions s)
  unfolding acts accepted
  acts-total [] s = omega arith
  acts-total (a ∷ actions) s =
      acts-total actions (act ops log a s)
      ∙ omega (
        arith,
        act-total a s,
        count-append p (posted ops log a s) (accepted ops log actions (act ops log a s)),
      )
