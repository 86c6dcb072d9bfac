-- ===== src/Queue/Invariant/Moves.antt =====
-- The actions of one thread keep the invariant: minet/src/threading/Queue.h.
use minet_core.Prelude.{
  ℕ, suc, ◌+◌, ◌^◌, ◌≤◌, ◌<◌, Bool, true, false, List, [], ◌∷◌, ◌++◌, ◌≡◌, ◌⊎◌, inl, inr, refl, sym,
  ap, ◌∙◌, arith, Option, none, some, append-nil, ◌==◌, ltb, Bool-cases,
}
use mathlib.Core.Path.{subst}
use minet_core.Queue.{
  Slot, Queue, Thread, wrap, slot, update, put_slot, checked_push, checked_pop, exchanges, advance,
}
use minet_core.Queue.Threads.{System, claimed}
use minet_core.Queue.Invariant.{push_ticket, pop_ticket, Knows, Shared, Inv}
use minet_core.Queue.Invariant.Frames.{Frame, Inv-Frame}
use minet_core.Queue.Invariant.Stores.{
  put_fills-Frame, put_fills-Shared, put_empties-Frame, put_empties-Shared, put_self,
}
use minet_core.Queue.Invariant.Claims.{
  push-Frame, push-Shared, push-Fills, pop-Frame, pop-Shared, pop-Empties,
}

module _ {A : Type 0} (leave : A → A) (c : ℕ) (two : 2 ≤ c) where
  same-Frame : (q : Queue A) (h : List A) (x y : Option ℕ) → Frame c q h q h x y
  same-Frame q h x y = record {
    kept = λ n d e. e;
    pushes_grow = omega arith;
    pops_grow = omega arith;
    free = λ n g. g;
    full = λ n g. g;
    fills = λ n d g. (g, refl);
    empties = λ n d g. (g, refl);
  }

  abbrev pub After : System A → ℕ → Queue A → List A → Thread A → Type 0
  After s i q h t = Inv c (record { queue = q; threads = update s.threads i t; pushes = h })

  -- A thread goes on without a number.
  pub quiet :
      (s : System A) (i : ℕ) (t : Thread A)
      → Inv c s
      → Knows c s.queue s.pushes t
      → push_ticket t ≡ none
      → pop_ticket t ≡ none
      → After s i s.queue s.pushes t
  quiet s i t v k e g =
      Inv-Frame c s i s.queue s.pushes t v
        (same-Frame s.queue s.pushes (push_ticket (s.threads i)) (pop_ticket (s.threads i)))
        v.shared k (λ n d. cc) (λ n d. cc)

  pub checked_push-Inv :
      (s : System A) (i : ℕ) (d : A) (n index : ℕ)
      → Inv c s
      → (slot s.queue n).index ≡ index
      → After s i s.queue s.pushes (checked_push d n index)
  checked_push-Inv s i d n index v e = elim (Bool-cases (n == index)) [
    | inl g ↦ rw g (quiet s i (Thread.push_claim d n) v (λ b. ground arith) refl refl)
    | inr g ↦ elim (Bool-cases (ltb index n)) [
      | inl k ↦ rw (g, k) (quiet s i (Thread.pushed false) v tt refl refl)
      | inr k ↦ rw (g, k) (quiet s i (Thread.push_load d) v tt refl refl)
    ]
  ]

  pub checked_pop-Inv :
      (s : System A) (i n index : ℕ)
      → Inv c s
      → s.queue.next_enqueue + c < 2 ^ 64
      → n ≤ s.queue.next_dequeue
      → (slot s.queue n).index ≡ index
      → After s i s.queue s.pushes (checked_pop n index)
  checked_pop-Inv s i n index v b l e =
      let small : wrap (n + 1) ≡ n + 1 = omega (arith, v.shared.ordered) in
      elim (Bool-cases (wrap (n + 1) == index)) [
        | inl g ↦ rw g (quiet s i (Thread.pop_claim n) v (l, λ b. ground (arith, small)) refl refl)
        | inr g ↦ elim (Bool-cases (ltb index (wrap (n + 1)))) [
          | inl k ↦ rw (g, k) (quiet s i (Thread.popped none) v tt refl refl)
          | inr k ↦ rw (g, k) (quiet s i Thread.pop_load v tt refl refl)
        ]
      ]

  pub exchanged : (fails : Bool) (m n : ℕ) → exchanges fails m n ≡ true → m ≡ n
  exchanged fails m n e = ground arith

  -- The action of a thread that is at `t`.
  abbrev pub Moved : Bool → System A → ℕ → Thread A → Type 0
  Moved fails s i t =
      let (q, u) = advance leave fails s.queue t in After s i q (s.pushes ++ claimed t u) u

  pub unlogged :
      (s : System A) (i : ℕ) (q : Queue A) (t : Thread A)
      → After s i q s.pushes t
      → After s i q (s.pushes ++ []) t
  unlogged s i q t v = subst (λ h. After s i q h t) (sym (append-nil s.pushes)) v

  module _ (fails : Bool) (s : System A) (i : ℕ) (v : Inv c s)
      (b : s.queue.next_enqueue + c < 2 ^ 64) where
    pub relies : (t : Thread A) → s.threads i ≡ t → Knows c s.queue s.pushes t
    relies t e = subst (Knows c s.queue s.pushes) e (v.knows i)

    acts :
        (t : Thread A) (q : Queue A) (h : List A) (u : Thread A)
        → s.threads i ≡ t
        → Frame c s.queue s.pushes q h (push_ticket t) (pop_ticket t)
        → Shared c q h
        → Knows c q h u
        → ((n : ℕ) → push_ticket u ≡ some n → (push_ticket t ≡ some n) ⊎ (s.queue.next_enqueue ≤ n))
        → ((n : ℕ) → pop_ticket u ≡ some n → (pop_ticket t ≡ some n) ⊎ (s.queue.next_dequeue ≤ n))
        → After s i q h u
    acts t q h u e f shared known pushes pops =
        Inv-Frame c s i q h u v
          (subst (λ z. Frame c s.queue s.pushes q h (push_ticket z) (pop_ticket z)) (sym e) f)
          shared known
          (subst
            (λ z.
              (n : ℕ)
              → push_ticket u ≡ some n
              → (push_ticket z ≡ some n) ⊎ (s.queue.next_enqueue ≤ n))
            (sym e) pushes)
          (subst
            (λ z.
              (n : ℕ)
              → pop_ticket u ≡ some n
              → (pop_ticket z ≡ some n) ⊎ (s.queue.next_dequeue ≤ n))
            (sym e) pops)

    pub push_claim-Inv :
        (d : A) (n : ℕ)
        → s.threads i ≡ Thread.push_claim d n
        → Moved fails s i (Thread.push_claim d n)
    unfolding advance
    push_claim-Inv d n e = elim (Bool-cases (exchanges fails s.queue.next_enqueue n)) [
      | inl x ↦
          let top = exchanged fails s.queue.next_enqueue n x in
          let small : wrap (n + 1) ≡ suc n = omega arith in
          let index : (slot s.queue n).index ≡ n = relies (Thread.push_claim d n) e (omega arith) in
          rw (x, small)
            (acts (Thread.push_claim d n) (record (s.queue) { next_enqueue = suc n })
              (s.pushes ++ (d ∷ [])) (Thread.push_write d n) e
              (push-Frame c two s.queue s.pushes v.shared n d top index)
              (push-Shared c two s.queue s.pushes v.shared n d top index)
              (push-Fills c two s.queue s.pushes v.shared n d top index)
              (λ m g. let same : n ≡ m = cc in inr (omega arith)) (λ m g. cc))
      | inr x ↦ rw x (
          unlogged s i s.queue (Thread.push_check d s.queue.next_enqueue)
            (quiet s i (Thread.push_check d s.queue.next_enqueue) v (omega arith) refl refl))
    ]

    pub push_write-Inv :
        (d : A) (n : ℕ)
        → s.threads i ≡ Thread.push_write d n
        → Moved fails s i (Thread.push_write d n)
    unfolding advance
    push_write-Inv d n e =
        let (f, known) = relies (Thread.push_write d n) e in
        let x : Slot A = record (slot s.queue n) { content = d } in
        let index : x.index ≡ n = let (low, high, j) = f in j in
        let self = put_self c two s.queue s.pushes v.shared n x in
        unlogged s i (put_slot s.queue n x) (Thread.push_publish n) (
          acts (Thread.push_write d n) (put_slot s.queue n x) s.pushes (Thread.push_publish n) e
            (put_fills-Frame c two s.queue s.pushes v.shared n x f)
            (put_fills-Shared c two s.queue s.pushes v.shared n x f (omega arith) (inl index))
            (let (low, high, j) = f in
              (
                (low, high, ap (λ (y : Slot A). y.index) self ∙ j),
                known ∙ ap some (sym (ap (λ (y : Slot A). y.content) self)),
              ))
            (λ m g. inl g) (λ m g. inl g))

    pub push_publish-Inv :
        (n : ℕ) → s.threads i ≡ Thread.push_publish n → Moved fails s i (Thread.push_publish n)
    unfolding advance
    push_publish-Inv n e =
        let (f, known) = relies (Thread.push_publish n) e in
        let small : wrap (n + 1) ≡ n + 1 = let (low, high, j) = f in omega arith in
        let x : Slot A = record (slot s.queue n) { index = wrap (n + 1) } in
        unlogged s i (put_slot s.queue n x) (Thread.pushed true) (
          acts (Thread.push_publish n) (put_slot s.queue n x) s.pushes (Thread.pushed true) e
            (put_fills-Frame c two s.queue s.pushes v.shared n x f)
            (put_fills-Shared c two s.queue s.pushes v.shared n x f (omega arith)
              (inr (small, known)))
            tt (λ m g. cc) (λ m g. cc))

    pub pop_claim-Inv :
        (n : ℕ) → s.threads i ≡ Thread.pop_claim n → Moved fails s i (Thread.pop_claim n)
    unfolding advance
    pop_claim-Inv n e = elim (Bool-cases (exchanges fails s.queue.next_dequeue n)) [
      | inl x ↦
          let top = exchanged fails s.queue.next_dequeue n x in
          let small : wrap (n + 1) ≡ suc n = omega (arith, v.shared.ordered) in
          let (low, full) = relies (Thread.pop_claim n) e in
          let index : (slot s.queue n).index ≡ n + 1 = full (omega arith) in
          rw (x, small)
            (unlogged s i (record (s.queue) { next_dequeue = suc n }) (Thread.pop_read n)
              (acts (Thread.pop_claim n) (record (s.queue) { next_dequeue = suc n }) s.pushes
                (Thread.pop_read n) e (pop-Frame c two s.queue s.pushes v.shared n top index)
                (pop-Shared c two s.queue s.pushes v.shared n top index)
                (pop-Empties c two s.queue s.pushes v.shared n top index) (λ m g. cc)
                (λ m g. let same : n ≡ m = cc in inr (omega arith))))
      | inr x ↦ rw x (
          unlogged s i s.queue (Thread.pop_check s.queue.next_dequeue)
            (quiet s i (Thread.pop_check s.queue.next_dequeue) v (omega arith) refl refl))
    ]

    pub pop_read-Inv :
        (n : ℕ) → s.threads i ≡ Thread.pop_read n → Moved fails s i (Thread.pop_read n)
    unfolding advance
    pop_read-Inv n e =
        let (f, known) = relies (Thread.pop_read n) e in
        let d = (slot s.queue n).content in
        let x : Slot A = record (slot s.queue n) { content = leave d } in
        let self = put_self c two s.queue s.pushes v.shared n x in
        unlogged s i (put_slot s.queue n x) (Thread.pop_release n d) (
          acts (Thread.pop_read n) (put_slot s.queue n x) s.pushes (Thread.pop_release n d) e
            (put_empties-Frame c two s.queue s.pushes v.shared n x f)
            (put_empties-Shared c two s.queue s.pushes v.shared n x f
              (let (low, high, j) = f in omega arith))
            (let (low, high, j) = f in ((low, high, ap (λ (y : Slot A). y.index) self ∙ j), known))
            (λ m g. inl g) (λ m g. inl g))

    pub pop_release-Inv :
        (n : ℕ) (d : A)
        → s.threads i ≡ Thread.pop_release n d
        → Moved fails s i (Thread.pop_release n d)
    unfolding advance
    pop_release-Inv n d e =
        let (f, known) = relies (Thread.pop_release n d) e in
        let top : wrap (n + s.queue.capacity) ≤ n + c =
          let (low, high, j) = f in omega (arith, v.shared.capacity_is, v.shared.ordered) in
        let x : Slot A = record (slot s.queue n) { index = wrap (n + s.queue.capacity) } in
        unlogged s i (put_slot s.queue n x) (Thread.popped (some d)) (
          acts (Thread.pop_release n d) (put_slot s.queue n x) s.pushes (Thread.popped (some d)) e
            (put_empties-Frame c two s.queue s.pushes v.shared n x f)
            (put_empties-Shared c two s.queue s.pushes v.shared n x f top) tt (λ m g. cc)
            (λ m g. cc))
