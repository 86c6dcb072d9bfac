-- ===== src/Queue/Fifo.antt =====
-- First in, first out: minet/src/threading/Queue.h.
use minet_core.Prelude.{
  ℕ, zero, suc, ◌+◌, ◌-◌, ◌%◌, ◌^◌, ◌≤◌, ◌<◌, Bool, ◌≡◌, inl, inr, refl, ap, ◌∙◌, sym, arith, some,
  get_elem?, length, Bool-cases,
}
use Prim.Native.Nat.{bit_and}
use native.Mathlib.Nat.{add-mod_right, mod-le, one-le-pow, two-pow-succ}
use mathlib.Core.Path.{subst}
use minet_core.Prelude.Bits.{bit_and-mod, mod_apart}
use minet_core.Queue.{
  Queue, Thread, place, slot, advance, checked_push, checked_pop, exchanges, create,
}
use minet_core.Queue.Threads.{
  System, Step, Reaches, initial, call_push, call_pop, move_on, start, later,
}
use minet_core.Queue.Invariant.{Inv, Knows}
use minet_core.Queue.Invariant.Moves.{
  Moved, quiet, checked_push-Inv, checked_pop-Inv, unlogged, push_claim-Inv, push_write-Inv,
  push_publish-Inv, pop_claim-Inv, pop_read-Inv, pop_release-Inv, exchanged, relies,
}

module _ {A : Type 0} (leave : A → A) (blank : A) where
  -- Whatever a thread does.
  advance-Inv :
      (c : ℕ) (two : 2 ≤ c) (fails : Bool) (s : System A) (i : ℕ) (t : Thread A)
      → Inv c s
      → s.queue.next_enqueue + c < 2 ^ 64
      → s.threads i ≡ t
      → Moved leave c two fails s i t
  unfolding advance
  advance-Inv c two fails s i Thread.idle v b e =
      unlogged leave c two s i s.queue Thread.idle
        (quiet leave c two s i Thread.idle v tt refl refl)
  advance-Inv c two fails s i (Thread.push_load d) v b e =
      unlogged leave c two s i s.queue (Thread.push_check d s.queue.next_enqueue)
        (quiet leave c two s i (Thread.push_check d s.queue.next_enqueue) v (omega arith) refl refl)
  advance-Inv c two fails s i (Thread.push_check d n) v b e =
      unlogged leave c two s i s.queue (checked_push d n (slot s.queue n).index)
        (checked_push-Inv leave c two s i d n (slot s.queue n).index v refl)
  advance-Inv c two fails s i (Thread.push_claim d n) v b e =
      push_claim-Inv leave c two fails s i v b d n e
  advance-Inv c two fails s i (Thread.push_write d n) v b e =
      push_write-Inv leave c two fails s i v b d n e
  advance-Inv c two fails s i (Thread.push_publish n) v b e =
      push_publish-Inv leave c two fails s i v b n e
  advance-Inv c two fails s i (Thread.pushed r) v b e =
      unlogged leave c two s i s.queue (Thread.pushed r)
        (quiet leave c two s i (Thread.pushed r) v tt refl refl)
  advance-Inv c two fails s i Thread.pop_load v b e =
      unlogged leave c two s i s.queue (Thread.pop_check s.queue.next_dequeue)
        (quiet leave c two s i (Thread.pop_check s.queue.next_dequeue) v (omega arith) refl refl)
  advance-Inv c two fails s i (Thread.pop_check n) v b e =
      unlogged leave c two s i s.queue (checked_pop n (slot s.queue n).index) (
        checked_pop-Inv leave c two s i n (slot s.queue n).index v b
          (relies leave c two fails s i v b (Thread.pop_check n) e) refl)
  advance-Inv c two fails s i (Thread.pop_claim n) v b e =
      pop_claim-Inv leave c two fails s i v b n e
  advance-Inv c two fails s i (Thread.pop_read n) v b e = pop_read-Inv leave c two fails s i v b n e
  advance-Inv c two fails s i (Thread.pop_release n d) v b e =
      pop_release-Inv leave c two fails s i v b n d e
  advance-Inv c two fails s i (Thread.popped r) v b e =
      unlogged leave c two s i s.queue (Thread.popped r)
        (quiet leave c two s i (Thread.popped r) v tt refl refl)

  Step-Inv :
      (c : ℕ) (two : 2 ≤ c) (s u : System A)
      → Inv c s
      → s.queue.next_enqueue + c < 2 ^ 64
      → Step leave s u
      → Inv c u
  Step-Inv c two s u v b (call_push i d r) =
      quiet leave c two s i (Thread.push_load d) v tt refl refl
  Step-Inv c two s u v b (call_pop i r) = quiet leave c two s i Thread.pop_load v tt refl refl
  Step-Inv c two s u v b (move_on fails i) = advance-Inv c two fails s i (s.threads i) v b refl

  advance-next_enqueue :
      (fails : Bool) (q : Queue A) (t : Thread A)
      → (advance leave fails q t).0.next_enqueue ≤ suc q.next_enqueue
  unfolding advance
  advance-next_enqueue fails q Thread.idle = omega arith
  advance-next_enqueue fails q (Thread.push_load d) = omega arith
  advance-next_enqueue fails q (Thread.push_check d n) = omega arith
  advance-next_enqueue fails q (Thread.push_claim d n) =
      elim (Bool-cases (exchanges fails q.next_enqueue n)) [
        | inl e ↦
            let top = exchanged leave 2 (omega arith) fails q.next_enqueue n e in rw e (omega arith)
        | inr e ↦ rw e (omega arith)
      ]
  advance-next_enqueue fails q (Thread.push_write d n) = omega arith
  advance-next_enqueue fails q (Thread.push_publish n) = omega arith
  advance-next_enqueue fails q (Thread.pushed r) = omega arith
  advance-next_enqueue fails q Thread.pop_load = omega arith
  advance-next_enqueue fails q (Thread.pop_check n) = omega arith
  advance-next_enqueue fails q (Thread.pop_claim n) =
      elim (Bool-cases (exchanges fails q.next_dequeue n)) [
        | inl e ↦ rw e (omega arith)
        | inr e ↦ rw e (omega arith)
      ]
  advance-next_enqueue fails q (Thread.pop_read n) = omega arith
  advance-next_enqueue fails q (Thread.pop_release n d) = omega arith
  advance-next_enqueue fails q (Thread.popped r) = omega arith

  Step-next_enqueue :
      (s u : System A) → Step leave s u → u.queue.next_enqueue ≤ suc s.queue.next_enqueue
  Step-next_enqueue s u (call_push i d r) = omega arith
  Step-next_enqueue s u (call_pop i r) = omega arith
  Step-next_enqueue s u (move_on fails i) = advance-next_enqueue fails s.queue (s.threads i)

  initial-Inv : (k : ℕ) → 2 ^ k < 2 ^ 64 → Inv (2 ^ k) (initial blank (2 ^ k))
  initial-Inv k small =
      let q : Queue A = create blank (2 ^ k) in
      let mask : q.mask ≡ 2 ^ k - 1 = omega (arith, one-le-pow k 2 (omega arith)) in
      let masked : (n : ℕ) → place q n ≡ n % 2 ^ k = λ n. ap (bit_and n) mask ∙ bit_and-mod k n in
      record {
        shared = record {
          capacity_is = refl;
          spread = λ n m e. mod_apart n m (2 ^ k) (sym (masked n) ∙ e ∙ masked m);
          round = λ n. masked (n + 2 ^ k) ∙ add-mod_right n (2 ^ k) ∙ sym (masked n);
          ordered = omega arith;
          room = omega arith;
          counted = refl;
          window = λ n low high. absurd (omega arith);
          ahead = λ n low. omega (arith, masked n, mod-le n (2 ^ k));
        };
        knows = λ i. tt;
        one_push = λ i j n e g. cc;
        one_pop = λ i j n e g. cc;
      }

  -- So many steps after the start, with a capacity of at least 2.
  pub Reaches-Inv :
      (k steps : ℕ) {s : System A}
      → Reaches leave (initial blank (2 ^ suc k)) steps s
      → steps + 2 ^ suc k < 2 ^ 64
      → Inv (2 ^ suc k) s × (s.queue.next_enqueue ≤ steps)
  Reaches-Inv k zero start b = (initial-Inv (suc k) (omega arith), omega arith)
  Reaches-Inv k (suc n) (later {t = t} {u = u} r step) b =
      let (v, l) = Reaches-Inv k n r (omega arith) in
      let two : 2 ≤ 2 ^ suc k = omega (arith, two-pow-succ k, one-le-pow k 2 (omega arith)) in
      (Step-Inv (2 ^ suc k) two t u v (omega arith) step, omega (arith, Step-next_enqueue t u step))

  -- A call of `Pop` that has moved out its data has what the call of `Push` with its number in the
  -- order of compare-exchanges brought, and no more numbers are taken by `Pop` than by `Push`, as long as
  -- the steps and the capacity, a power of two and at least 2, stay below 2 ^ 64.
  pub pop_release-pushes :
      (k steps i n : ℕ) (d : A) (s : System A)
      → Reaches leave (initial blank (2 ^ suc k)) steps s
      → steps + 2 ^ suc k < 2 ^ 64
      → s.threads i ≡ Thread.pop_release n d
      → (get_elem? s.pushes n ≡ some d)
        × (n < s.queue.next_dequeue)
        × (s.queue.next_dequeue ≤ length s.pushes)
  pop_release-pushes k steps i n d s r b e =
      let (v, l) = Reaches-Inv k steps r b in
      let ((low, high, index), known) = subst (Knows (2 ^ suc k) s.queue s.pushes) e (v.knows i) in
      (known, low, omega (arith, v.shared.counted, v.shared.ordered))
