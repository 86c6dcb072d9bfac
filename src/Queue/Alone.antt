-- ===== src/Queue/Alone.antt =====
-- Who writes a slot, and when calls end: minet/src/threading/Queue.h.
use minet_core.Prelude.{
  ℕ, zero, suc, ◌+◌, ◌^◌, ◌≤◌, ◌<◌, Bool, true, false, ◌||◌, List, ◌≡◌, ◌≢◌, ◌⊎◌, inl, inr, refl,
  ap, ◌∙◌, arith, some, Option, none, ◌==◌, ltb, Bool-cases,
}
use mathlib.Core.Path.{subst}
use native.Mathlib.Decide.{dec_lt}
use native.Mathlib.Nat.{one-le-pow, two-pow-succ}
use minet_core.Queue.{
  Queue, Thread, wrap, place, slot, advance, checked_push, checked_pop, exchanges, is_resting,
}
use minet_core.Queue.Threads.{System, Reaches, initial}
use minet_core.Queue.Invariant.{push_ticket, pop_ticket, Fills, Empties, Knows, Shared}
use minet_core.Queue.Fifo.{Reaches-Inv}

-- The number of a thread that is about to write its slot.
abbrev pub ticket : {A : Type 0} → Thread A → Option ℕ
ticket (Thread.push_write d n) = some n
ticket (Thread.push_publish n) = some n
ticket (Thread.pop_read n) = some n
ticket (Thread.pop_release n d) = some n
ticket t = none

-- The call ends within so many actions of the thread alone, when no compare-exchange fails without reason.
unfoldable pub finishes : {A : Type 0} → (A → A) → ℕ → Queue A → Thread A → Bool
finishes leave zero q t = is_resting t
finishes leave (suc n) q t =
    let (q', t') = advance leave false q t in is_resting t || finishes leave n q' t'

module _ {A : Type 0} (leave : A → A) (blank : A) where
  ticket-Knows :
      (c : ℕ) (q : Queue A) (h : List A) (t : Thread A) (n : ℕ)
      → ticket t ≡ some n
      → Knows c q h t
      → ((push_ticket t ≡ some n) × Fills c q n) ⊎ ((pop_ticket t ≡ some n) × Empties c q n)
  ticket-Knows c q h Thread.idle n e k = cc
  ticket-Knows c q h (Thread.push_load d) n e k = cc
  ticket-Knows c q h (Thread.push_check d m) n e k = cc
  ticket-Knows c q h (Thread.push_claim d m) n e k = cc
  ticket-Knows c q h (Thread.push_write d m) n e (k, g) =
      let same : m ≡ n = cc in inl (e, subst (Fills c q) same k)
  ticket-Knows c q h (Thread.push_publish m) n e (k, g) =
      let same : m ≡ n = cc in inl (e, subst (Fills c q) same k)
  ticket-Knows c q h (Thread.pushed r) n e k = cc
  ticket-Knows c q h Thread.pop_load n e k = cc
  ticket-Knows c q h (Thread.pop_check m) n e k = cc
  ticket-Knows c q h (Thread.pop_claim m) n e k = cc
  ticket-Knows c q h (Thread.pop_read m) n e (k, g) =
      let same : m ≡ n = cc in inr (e, subst (Empties c q) same k)
  ticket-Knows c q h (Thread.pop_release m d) n e (k, g) =
      let same : m ≡ n = cc in inr (e, subst (Empties c q) same k)
  ticket-Knows c q h (Thread.popped r) n e k = cc

  same_writer :
      (k steps i j n m : ℕ) (s : System A)
      → Reaches leave (initial blank (2 ^ suc k)) steps s
      → steps + 2 ^ suc k < 2 ^ 64
      → ticket (s.threads i) ≡ some n
      → ticket (s.threads j) ≡ some m
      → place s.queue n ≡ place s.queue m
      → i ≡ j
  same_writer k steps i j n m s r b e g p =
      let (v, l) = Reaches-Inv leave blank k steps r b in
      let two : 2 ≤ 2 ^ suc k = omega (arith, two-pow-succ k, one-le-pow k 2 (omega arith)) in
      let same : (slot s.queue n).index ≡ (slot s.queue m).index =
        ap (λ a. (s.queue.slots a).index) p in
      elim (ticket-Knows (2 ^ suc k) s.queue s.pushes (s.threads i) n e (v.knows i)) [
        | inl (x, (low, high, a)) ↦
            elim (ticket-Knows (2 ^ suc k) s.queue s.pushes (s.threads j) m g (v.knows j)) [
              | inl (y, (low', high', a')) ↦
                  let number : m ≡ n = omega arith in v.one_push i j n x (y ∙ ap some number)
              | inr (y, (low', high', a')) ↦ absurd (elim (v.shared.spread n m p) [
                | inl z ↦ omega arith
                | inr (inl z) ↦ omega arith
                | inr (inr z) ↦ omega arith
              ])
            ]
        | inr (x, (low, high, a)) ↦
            elim (ticket-Knows (2 ^ suc k) s.queue s.pushes (s.threads j) m g (v.knows j)) [
              | inr (y, (low', high', a')) ↦
                  let number : m ≡ n = omega arith in v.one_pop i j n x (y ∙ ap some number)
              | inl (y, (low', high', a')) ↦ absurd (elim (v.shared.spread n m p) [
                | inl z ↦ omega arith
                | inr (inl z) ↦ omega arith
                | inr (inr z) ↦ omega arith
              ])
            ]
      ]

  -- Two threads that are about to write slots write different ones, as long as the steps and the capacity, a power
  -- of two and at least 2, stay below 2 ^ 64.
  pub one_writer :
      (k steps i j n m : ℕ) (s : System A)
      → Reaches leave (initial blank (2 ^ suc k)) steps s
      → steps + 2 ^ suc k < 2 ^ 64
      → i ≢ j
      → ticket (s.threads i) ≡ some n
      → ticket (s.threads j) ≡ some m
      → place s.queue n ≢ place s.queue m
  one_writer k steps i j n m s r b d e g p = d (same_writer k steps i j n m s r b e g p)

  finishes_more :
      (n : ℕ) (q : Queue A) (t : Thread A)
      → finishes leave n q t ≡ true
      → finishes leave (suc n) q t ≡ true
  unfolding finishes
  finishes_more zero q t e = ground arith
  finishes_more (suc n) q t e =
      let (q', t') = advance leave false q t in
      elim (Bool-cases (is_resting t)) [
        | inl r ↦ rw r refl
        | inr r ↦
            let tail : finishes leave n q' t' ≡ true = ground arith in
            rw (r, finishes_more n q' t' tail) refl
      ]

  module _ (c : ℕ) (two : 2 ≤ c) (q : Queue A) (h : List A) (v : Shared c q h)
      (b : q.next_enqueue + c < 2 ^ 64) where
    -- A call that has loaded the number of the next slot.
    push_current :
        (d : A) (index : ℕ)
        → index ≤ q.next_enqueue
        → finishes leave 3 q (checked_push d q.next_enqueue index) ≡ true
    unfolding finishes advance
    push_current d index low = elim (Bool-cases (q.next_enqueue == index)) [
      | inl e ↦
          let x : exchanges false q.next_enqueue q.next_enqueue ≡ true = ground arith in
          rw (e, x) refl
      | inr e ↦ let k : ltb index q.next_enqueue ≡ true = ground arith in rw (e, k) refl
    ]

    push_check-finishes : (d : A) → finishes leave 4 q (Thread.push_check d q.next_enqueue) ≡ true
    unfolding finishes advance
    push_check-finishes d =
        push_current d (slot q q.next_enqueue).index (v.ahead q.next_enqueue (omega arith))

    push_claim-finishes : (d : A) (n : ℕ) → finishes leave 5 q (Thread.push_claim d n) ≡ true
    unfolding finishes advance
    push_claim-finishes d n = elim (Bool-cases (exchanges false q.next_enqueue n)) [
      | inl e ↦ rw e refl
      | inr e ↦ rw e (push_check-finishes d)
    ]

    push_load-finishes : (d : A) → finishes leave 5 q (Thread.push_load d) ≡ true
    unfolding finishes advance
    push_load-finishes d = push_check-finishes d

    checked_push-finishes :
        (d : A) (n index : ℕ) → finishes leave 5 q (checked_push d n index) ≡ true
    checked_push-finishes d n index = elim (Bool-cases (n == index)) [
      | inl e ↦ rw e (push_claim-finishes d n)
      | inr e ↦ elim (Bool-cases (ltb index n)) [
        | inl k ↦ rw (e, k) (unfold finishes advance in refl)
        | inr k ↦ rw (e, k) (push_load-finishes d)
      ]
    ]

    pop_current :
        (index : ℕ)
        → index ≤ q.next_dequeue + 1
        → finishes leave 3 q (checked_pop q.next_dequeue index) ≡ true
    unfolding finishes advance
    pop_current index low =
        let small : wrap (q.next_dequeue + 1) ≡ q.next_dequeue + 1 = omega (arith, v.ordered) in
        elim (Bool-cases (wrap (q.next_dequeue + 1) == index)) [
          | inl e ↦
              let x : exchanges false q.next_dequeue q.next_dequeue ≡ true = ground arith in
              rw (e, x) refl
          | inr e ↦
              let k : ltb index (wrap (q.next_dequeue + 1)) ≡ true = ground (arith, small) in
              rw (e, k) refl
        ]

    first_index : (slot q q.next_dequeue).index ≤ q.next_dequeue + 1
    first_index = elim (dec_lt q.next_dequeue q.next_enqueue) [
      | yes some_left ↦ elim (v.window q.next_dequeue (omega arith) some_left) [
        | inl i ↦ omega arith
        | inr (i, e) ↦ omega arith
      ]
      | no none_left ↦ omega (arith, v.ahead q.next_dequeue (omega arith))
    ]

    pop_check-finishes : finishes leave 4 q (Thread.pop_check q.next_dequeue) ≡ true
    unfolding finishes advance
    pop_check-finishes = pop_current (slot q q.next_dequeue).index first_index

    pop_claim-finishes : (n : ℕ) → finishes leave 5 q (Thread.pop_claim n) ≡ true
    unfolding finishes advance
    pop_claim-finishes n = elim (Bool-cases (exchanges false q.next_dequeue n)) [
      | inl e ↦ rw e refl
      | inr e ↦ rw e pop_check-finishes
    ]

    pop_load-finishes : finishes leave 5 q Thread.pop_load ≡ true
    unfolding finishes advance
    pop_load-finishes = pop_check-finishes

    checked_pop-finishes : (n index : ℕ) → finishes leave 5 q (checked_pop n index) ≡ true
    checked_pop-finishes n index = elim (Bool-cases (wrap (n + 1) == index)) [
      | inl e ↦ rw e (pop_claim-finishes n)
      | inr e ↦ elim (Bool-cases (ltb index (wrap (n + 1)))) [
        | inl k ↦ rw (e, k) (unfold finishes advance in refl)
        | inr k ↦ rw (e, k) pop_load-finishes
      ]
    ]

    six : (t : Thread A) → finishes leave 6 q t ≡ true
    unfolding finishes advance
    six Thread.idle = refl
    six (Thread.push_load d) = finishes_more 5 q (Thread.push_load d) (push_load-finishes d)
    six (Thread.push_check d n) = checked_push-finishes d n (slot q n).index
    six (Thread.push_claim d n) =
        finishes_more 5 q (Thread.push_claim d n) (push_claim-finishes d n)
    six (Thread.push_write d n) = refl
    six (Thread.push_publish n) = refl
    six (Thread.pushed r) = refl
    six Thread.pop_load = finishes_more 5 q Thread.pop_load pop_load-finishes
    six (Thread.pop_check n) = checked_pop-finishes n (slot q n).index
    six (Thread.pop_claim n) = finishes_more 5 q (Thread.pop_claim n) (pop_claim-finishes n)
    six (Thread.pop_read n) = refl
    six (Thread.pop_release n d) = refl
    six (Thread.popped r) = refl

  -- Wherever the threads are, the call of each ends within six actions when it goes on alone and no
  -- compare-exchange fails without reason, as long as the steps and the capacity, a power of two
  -- and at least 2, stay below 2 ^ 64.
  pub finishes-alone :
      (k steps i : ℕ) (s : System A)
      → Reaches leave (initial blank (2 ^ suc k)) steps s
      → steps + 2 ^ suc k < 2 ^ 64
      → finishes leave 6 s.queue (s.threads i) ≡ true
  finishes-alone k steps i s r b =
      let (v, l) = Reaches-Inv leave blank k steps r b in
      six (2 ^ suc k) (omega (arith, two-pow-succ k, one-le-pow k 2 (omega arith))) s.queue s.pushes
        v.shared (omega arith) (s.threads i)
