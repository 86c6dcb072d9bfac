-- ===== src/Queue/Invariant.antt =====
-- What holds between the threads that share a queue: minet/src/threading/Queue.h.
pub mod Frames
pub mod Stores
pub mod Claims
pub mod Moves
use minet_core.Prelude.{
  ℕ, suc, ◌+◌, ◌≤◌, ◌<◌, ◌^◌, Bool, true, false, List, ◌≡◌, ◌≢◌, ◌⊎◌, inl, inr, refl, sym, ap, ◌∙◌,
  arith, Option, none, some, ◌==◌, if◌then◌else◌, length, get_elem?, Bool-cases,
}
use minet_core.Queue.{Slot, Queue, Thread, place, slot, update, put_slot}
use minet_core.Queue.Threads.{System}

-- The number for which a thread may write a slot, in `Push` and in `Pop`.
abbrev pub push_ticket : {A : Type 0} → Thread A → Option ℕ
push_ticket (Thread.push_write d n) = some n
push_ticket (Thread.push_publish n) = some n
push_ticket t = none

abbrev pub pop_ticket : {A : Type 0} → Thread A → Option ℕ
pop_ticket (Thread.pop_read n) = some n
pop_ticket (Thread.pop_release n d) = some n
pop_ticket t = none

-- Equal numbers, or numbers that are more than a round apart.
abbrev pub Apart : ℕ → ℕ → ℕ → Type 0
Apart c n m = (n ≡ m) ⊎ (n + c ≤ m) ⊎ (m + c ≤ n)

module _ {A : Type 0} (c : ℕ) where
  -- A number that no `Push` has taken, and whose slot is free.
  abbrev pub IsFree : Queue A → ℕ → Type 0
  IsFree q n = q.next_enqueue ≤ n → (slot q n).index ≡ n

  -- A number that no `Pop` has taken, and whose slot is full.
  abbrev pub IsFull : Queue A → ℕ → Type 0
  IsFull q n = (n ≤ q.next_dequeue) × (q.next_dequeue ≤ n → (slot q n).index ≡ n + 1)

  -- A number that a `Push` has taken.
  abbrev pub Fills : Queue A → ℕ → Type 0
  Fills q n = (q.next_dequeue ≤ n) × (n < q.next_enqueue) × ((slot q n).index ≡ n)

  -- A number that a `Pop` has taken.
  abbrev pub Empties : Queue A → ℕ → Type 0
  Empties q n = (n < q.next_dequeue) × (q.next_enqueue ≤ n + c) × ((slot q n).index ≡ n + 1)

  -- What a thread relies on.
  abbrev pub Knows : Queue A → List A → Thread A → Type 0
  Knows q h (Thread.push_check d n) = n ≤ q.next_enqueue
  Knows q h (Thread.push_claim d n) = IsFree q n
  Knows q h (Thread.push_write d n) = Fills q n × (get_elem? h n ≡ some d)
  Knows q h (Thread.push_publish n) = Fills q n × (get_elem? h n ≡ some (slot q n).content)
  Knows q h (Thread.pop_check n) = n ≤ q.next_dequeue
  Knows q h (Thread.pop_claim n) = IsFull q n
  Knows q h (Thread.pop_read n) = Empties q n × (get_elem? h n ≡ some (slot q n).content)
  Knows q h (Thread.pop_release n d) = Empties q n × (get_elem? h n ≡ some d)
  Knows q h t = Unit

  -- The counters and the slots.
  pub record Shared (q : Queue A) (h : List A) : Type 0 where
    pub capacity_is : q.capacity ≡ c
    pub spread : (n m : ℕ) → place q n ≡ place q m → Apart c n m
    pub round : (n : ℕ) → place q (n + c) ≡ place q n
    pub ordered : q.next_dequeue ≤ q.next_enqueue
    pub room : q.next_enqueue ≤ q.next_dequeue + c
    pub counted : length h ≡ q.next_enqueue
    pub window :
        (n : ℕ)
        → q.next_dequeue ≤ n
        → n < q.next_enqueue
        → ((slot q n).index ≡ n)
          ⊎ (((slot q n).index ≡ n + 1) × (get_elem? h n ≡ some (slot q n).content))
    pub ahead : (n : ℕ) → q.next_enqueue ≤ n → (slot q n).index ≤ n

  pub record Inv (s : System A) : Type 0 where
    pub shared : Shared s.queue s.pushes
    pub knows : (i : ℕ) → Knows s.queue s.pushes (s.threads i)
    pub one_push :
        (i j n : ℕ)
        → push_ticket (s.threads i) ≡ some n
        → push_ticket (s.threads j) ≡ some n
        → i ≡ j
    pub one_pop :
        (i j n : ℕ) → pop_ticket (s.threads i) ≡ some n → pop_ticket (s.threads j) ≡ some n → i ≡ j

-- A slot after a store to the slot of `n`.
module _ {A : Type 0} (c : ℕ) (q : Queue A) (n : ℕ) (x : Slot A) where
  abbrev pub Stored : ℕ → Type 0
  Stored k =
      ((slot (put_slot q n x) k ≡ x) × (slot q k ≡ slot q n) × Apart c n k)
      ⊎ (slot (put_slot q n x) k ≡ slot q k)

  pub put_slot_lem : ((n m : ℕ) → place q n ≡ place q m → Apart c n m) → (k : ℕ) → Stored k
  put_slot_lem spread k = elim (Bool-cases (place q n == place q k)) [
    | inl e ↦
        let same : place q n ≡ place q k = ground arith in
        inl (rw e refl, ap q.slots (sym same), spread n k same)
    | inr e ↦ inr (rw e refl)
  ]
