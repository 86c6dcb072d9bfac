-- ===== src/Queue.antt =====
-- The lock-free queue: minet/src/threading/Queue.h, as atomic actions of threads.
pub mod Threads
pub mod Invariant
pub mod Fifo
pub mod Alone
pub mod Overwrites
mod Tests
use minet_core.Prelude.{
  ℕ, ◌+◌, ◌-◌, ◌%◌, ◌^◌, Bool, true, false, not, ◌&&◌, Option, none, some, ◌==◌, ltb, if◌then◌else◌,
}
use Prim.Native.Nat.{bit_and}

-- `Slot`; `content` is its `Data`
pub record Slot (A : Type 0) : Type 0 where
  pub index : ℕ
  pub content : A

-- `_slots` is a function of the place; the masked numbers are below the capacity.
pub record Queue (A : Type 0) : Type 0 where
  pub capacity : ℕ
  pub mask : ℕ
  pub slots : ℕ → Slot A
  pub next_enqueue : ℕ
  pub next_dequeue : ℕ

-- A `size_t`
abbrev pub wrap : ℕ → ℕ
wrap n = n % 2 ^ 64

-- A value at one place.
abbrev pub update {ℓ} : {B : Type ℓ} → (ℕ → B) → ℕ → B → ℕ → B
update f i b j = if i == j then b else f j

-- The constructor. `blank` is what `TData()` gives.
abbrev pub create : {A : Type 0} → A → ℕ → Queue A
create blank capacity = record {
  capacity = capacity;
  mask = wrap (capacity + (2 ^ 64 - 1));
  slots = λ i. record { index = i; content = blank };
  next_enqueue = 0;
  next_dequeue = 0;
}

-- Where a thread is: before the load, the test, the compare-exchange and the stores of `Push` and `Pop`.
-- `pushed` and `popped` hold what the call returned, with the data that a successful `Pop` moved out.
pub data Thread (A : Type 0) : Type 0 where
  idle : Thread A
  push_load : A → Thread A
  push_check : A → ℕ → Thread A
  push_claim : A → ℕ → Thread A
  push_write : A → ℕ → Thread A
  push_publish : ℕ → Thread A
  pushed : Bool → Thread A
  pop_load : Thread A
  pop_check : ℕ → Thread A
  pop_claim : ℕ → Thread A
  pop_read : ℕ → Thread A
  pop_release : ℕ → A → Thread A
  popped : Option A → Thread A

-- Of a thread that is in no call.
abbrev pub is_resting : {A : Type 0} → Thread A → Bool
is_resting idle = true
is_resting (pushed r) = true
is_resting (popped r) = true
is_resting t = false

-- `&_slots[next & _mask]`
abbrev pub place : {A : Type 0} → Queue A → ℕ → ℕ
place q n = bit_and n q.mask

abbrev pub slot : {A : Type 0} → Queue A → ℕ → Slot A
slot q n = q.slots (place q n)

-- A store to that slot.
abbrev pub put_slot : {A : Type 0} → Queue A → ℕ → Slot A → Queue A
put_slot q n x = record q { slots = update q.slots (place q n) x }

-- After the load of a slot's index.
abbrev pub checked_push : {A : Type 0} → A → ℕ → ℕ → Thread A
checked_push d n index =
    if n == index then push_claim d n else if ltb index n then pushed false else push_load d

abbrev pub checked_pop : {A : Type 0} → ℕ → ℕ → Thread A
checked_pop n index =
    if wrap (n + 1) == index
    then pop_claim n
    else if ltb index (wrap (n + 1))
    then popped none
    else pop_load

-- `compare_exchange_weak` on a counter that has the value `current`.
abbrev pub exchanges : Bool → ℕ → ℕ → Bool
exchanges fails current n = not fails && (current == n)

-- One atomic action. `fails` makes `compare_exchange_weak` fail without reason, and `leave` is what
-- `std::move` leaves of the data.
unfoldable pub advance : {A : Type 0} → (A → A) → Bool → Queue A → Thread A → Queue A × Thread A
advance leave fails q idle = (q, idle)
advance leave fails q (push_load d) = (q, push_check d q.next_enqueue)
advance leave fails q (push_check d n) = (q, checked_push d n (slot q n).index)
advance leave fails q (push_claim d n) =
    if exchanges fails q.next_enqueue n
    then (record q { next_enqueue = wrap (n + 1) }, push_write d n)
    else (q, push_check d q.next_enqueue)
advance leave fails q (push_write d n) =
    (put_slot q n (record (slot q n) { content = d }), push_publish n)
advance leave fails q (push_publish n) =
    (put_slot q n (record (slot q n) { index = wrap (n + 1) }), pushed true)
advance leave fails q (pushed r) = (q, pushed r)
advance leave fails q pop_load = (q, pop_check q.next_dequeue)
advance leave fails q (pop_check n) = (q, checked_pop n (slot q n).index)
advance leave fails q (pop_claim n) =
    if exchanges fails q.next_dequeue n
    then (record q { next_dequeue = wrap (n + 1) }, pop_read n)
    else (q, pop_check q.next_dequeue)
advance leave fails q (pop_read n) = (
  put_slot q n (record (slot q n) { content = leave (slot q n).content }),
  pop_release n (slot q n).content,
)
advance leave fails q (pop_release n d) =
    (put_slot q n (record (slot q n) { index = wrap (n + q.capacity) }), popped (some d))
advance leave fails q (popped r) = (q, popped r)
