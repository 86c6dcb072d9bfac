-- ===== src/Queue/Threads.antt =====
-- Threads that share a queue: minet/src/threading/Queue.h.
use minet_core.Prelude.{ℕ, zero, suc, Bool, true, List, [], ◌∷◌, ◌++◌, ◌≡◌}
use minet_core.Queue.{
  Queue, Thread, create, update, is_resting, advance, push_load, push_claim, push_write, pop_load,
  idle,
}

-- `pushes` has the data of the calls of `Push`, in the order of their compare-exchanges.
pub record System (A : Type 0) : Type 0 where
  pub queue : Queue A
  pub threads : ℕ → Thread A
  pub pushes : List A

-- The data of a compare-exchange that succeeds.
abbrev pub claimed : {A : Type 0} → Thread A → Thread A → List A
claimed (push_claim d n) (push_write e m) = d ∷ []
claimed t u = []

abbrev pub initial : {A : Type 0} → A → ℕ → System A
initial blank capacity = record { queue = create blank capacity; threads = λ i. idle; pushes = [] }

abbrev pub call : {A : Type 0} → System A → ℕ → Thread A → System A
call s i t = record s { threads = update s.threads i t }

abbrev pub move : {A : Type 0} → (A → A) → Bool → System A → ℕ → System A
move leave fails s i =
    let (q, t) = advance leave fails s.queue (s.threads i) in
    record s {
      queue = q;
      threads = update s.threads i t;
      pushes = s.pushes ++ claimed (s.threads i) t;
    }

-- A thread calls `Push` or `Pop`, or goes on with its call.
pub data Step {A : Type 0} (leave : A → A) (s : System A) : System A → Type 0 where
  call_push :
      (i : ℕ) (d : A) → is_resting (s.threads i) ≡ true → Step leave s (call s i (push_load d))
  call_pop : (i : ℕ) → is_resting (s.threads i) ≡ true → Step leave s (call s i pop_load)
  move_on : (fails : Bool) (i : ℕ) → Step leave s (move leave fails s i)

-- What so many steps can lead to.
pub data Reaches {A : Type 0} (leave : A → A) (s : System A) : ℕ → System A → Type 0 where
  start : Reaches leave s zero s
  later :
      {n : ℕ} {t u : System A} → Reaches leave s n t → Step leave t u → Reaches leave s (suc n) u
