-- ===== src/Queue/Invariant/Frames.antt =====
-- An action of one thread, and what the others rely on: minet/src/threading/Queue.h.
use minet_core.Prelude.{
  ℕ, ◌≤◌, ◌<◌, List, ◌≡◌, ◌≢◌, ◌⊎◌, inl, inr, refl, sym, ap, ◌∙◌, arith, Option, some, ◌==◌,
  get_elem?, Bool-cases,
}
use mathlib.Core.Path.{subst}
use minet_core.Queue.{Queue, Thread, slot, update}
use minet_core.Queue.Threads.{System}
use minet_core.Queue.Invariant.{
  push_ticket, pop_ticket, IsFree, IsFull, Fills, Empties, Knows, Shared, Inv,
}

-- A family that is changed at one place.
pub update_lem :
    {B : Type 0} (P : ℕ → B → Type 0) (f : ℕ → B) (i : ℕ) (b : B)
    → P i b
    → ((j : ℕ) → i ≢ j → P j (f j))
    → (j : ℕ) → P j (update f i b j)
update_lem P f i b here others j = elim (Bool-cases (i == j)) [
  | inl e ↦ let same : i ≡ j = ground arith in rw e (subst (λ k. P k b) same here)
  | inr e ↦ rw e (others j (λ k. ground arith))
]

module _ {A : Type 0} (c : ℕ) where
  -- What an action may change, where `x` and `y` are the numbers of the thread that acts.
  pub record Frame (q : Queue A) (h : List A) (q' : Queue A) (h' : List A) (x y : Option ℕ)
      : Type 0 where
    pub kept : (n : ℕ) (d : A) → get_elem? h n ≡ some d → get_elem? h' n ≡ some d
    pub pushes_grow : q.next_enqueue ≤ q'.next_enqueue
    pub pops_grow : q.next_dequeue ≤ q'.next_dequeue
    pub free : (n : ℕ) → IsFree c q n → IsFree c q' n
    pub full : (n : ℕ) → IsFull c q n → IsFull c q' n
    pub fills :
        (n : ℕ)
        → some n ≢ x
        → Fills c q n
        → Fills c q' n × ((slot q' n).content ≡ (slot q n).content)
    pub empties :
        (n : ℕ)
        → some n ≢ y
        → Empties c q n
        → Empties c q' n × ((slot q' n).content ≡ (slot q n).content)

  module _ {q : Queue A} {h : List A} {q' : Queue A} {h' : List A} {x y : Option ℕ}
      (f : Frame q h q' h' x y) where
    kept_content :
        (n : ℕ) {a : A}
        → a ≡ (slot q n).content
        → get_elem? h n ≡ some (slot q n).content
        → get_elem? h' n ≡ some a
    kept_content n e k = f.kept n (slot q n).content k ∙ ap some (sym e)

    Knows-Frame :
        (t : Thread A)
        → ((n : ℕ) → push_ticket t ≡ some n → some n ≢ x)
        → ((n : ℕ) → pop_ticket t ≡ some n → some n ≢ y)
        → Knows c q h t
        → Knows c q' h' t
    Knows-Frame (Thread.push_check d n) u v k = omega (arith, f.pushes_grow)
    Knows-Frame (Thread.push_claim d n) u v k = f.free n k
    Knows-Frame (Thread.push_write d n) u v (k, e) = ((f.fills n (u n refl) k).0, f.kept n d e)
    Knows-Frame (Thread.push_publish n) u v (k, e) =
        let (k', same) = f.fills n (u n refl) k in (k', kept_content n same e)
    Knows-Frame (Thread.pop_check n) u v k = omega (arith, f.pops_grow)
    Knows-Frame (Thread.pop_claim n) u v k = f.full n k
    Knows-Frame (Thread.pop_read n) u v (k, e) =
        let (k', same) = f.empties n (v n refl) k in (k', kept_content n same e)
    Knows-Frame (Thread.pop_release n d) u v (k, e) = ((f.empties n (v n refl) k).0, f.kept n d e)
    Knows-Frame Thread.idle u v k = tt
    Knows-Frame (Thread.push_load d) u v k = tt
    Knows-Frame (Thread.pushed r) u v k = tt
    Knows-Frame Thread.pop_load u v k = tt
    Knows-Frame (Thread.popped r) u v k = tt

  -- Numbers in use are below the counters.
  push_ticket-lt :
      (q : Queue A) (h : List A) (t : Thread A) (n : ℕ)
      → Knows c q h t
      → push_ticket t ≡ some n
      → n < q.next_enqueue
  push_ticket-lt q h Thread.idle n k e = cc
  push_ticket-lt q h (Thread.push_load d) n k e = cc
  push_ticket-lt q h (Thread.push_check d m) n k e = cc
  push_ticket-lt q h (Thread.push_claim d m) n k e = cc
  push_ticket-lt q h (Thread.push_write d m) n (k, g) e = let same : m ≡ n = cc in omega arith
  push_ticket-lt q h (Thread.push_publish m) n (k, g) e = let same : m ≡ n = cc in omega arith
  push_ticket-lt q h (Thread.pushed r) n k e = cc
  push_ticket-lt q h Thread.pop_load n k e = cc
  push_ticket-lt q h (Thread.pop_check m) n k e = cc
  push_ticket-lt q h (Thread.pop_claim m) n k e = cc
  push_ticket-lt q h (Thread.pop_read m) n k e = cc
  push_ticket-lt q h (Thread.pop_release m d) n k e = cc
  push_ticket-lt q h (Thread.popped r) n k e = cc

  pop_ticket-lt :
      (q : Queue A) (h : List A) (t : Thread A) (n : ℕ)
      → Knows c q h t
      → pop_ticket t ≡ some n
      → n < q.next_dequeue
  pop_ticket-lt q h Thread.idle n k e = cc
  pop_ticket-lt q h (Thread.push_load d) n k e = cc
  pop_ticket-lt q h (Thread.push_check d m) n k e = cc
  pop_ticket-lt q h (Thread.push_claim d m) n k e = cc
  pop_ticket-lt q h (Thread.push_write d m) n k e = cc
  pop_ticket-lt q h (Thread.push_publish m) n k e = cc
  pop_ticket-lt q h (Thread.pushed r) n k e = cc
  pop_ticket-lt q h Thread.pop_load n k e = cc
  pop_ticket-lt q h (Thread.pop_check m) n k e = cc
  pop_ticket-lt q h (Thread.pop_claim m) n k e = cc
  pop_ticket-lt q h (Thread.pop_read m) n (k, g) e = let same : m ≡ n = cc in omega arith
  pop_ticket-lt q h (Thread.pop_release m d) n (k, g) e = let same : m ≡ n = cc in omega arith
  pop_ticket-lt q h (Thread.popped r) n k e = cc

  -- No two threads have a number in common, when the one that acts keeps its own or takes a new one.
  one_ticket :
      (ticket : Thread A → Option ℕ) (f : ℕ → Thread A) (i : ℕ) (t : Thread A) (limit : ℕ)
      → ((j n : ℕ) → ticket (f j) ≡ some n → n < limit)
      → ((n : ℕ) → ticket t ≡ some n → (ticket (f i) ≡ some n) ⊎ (limit ≤ n))
      → ((j k n : ℕ) → ticket (f j) ≡ some n → ticket (f k) ≡ some n → j ≡ k)
      → (j k n : ℕ) → ticket (update f i t j) ≡ some n
      → ticket (update f i t k) ≡ some n
      → j ≡ k
  one_ticket ticket f i t limit below own one j k n =
      let apart : (m : ℕ) → i ≢ m → ticket t ≡ some n → ticket (f m) ≡ some n → i ≡ m = λ m d a b.
        elim (own n a) [ inl g ↦ one i m n g b | inr g ↦ absurd (omega (arith, below m n b)) ] in
      update_lem (λ j u. ticket u ≡ some n → ticket (update f i t k) ≡ some n → j ≡ k) f i t
        (λ a.
          update_lem (λ k u. ticket u ≡ some n → i ≡ k) f i t (λ b. refl) (λ k d b. apart k d a b)
            k)
        (λ j d a.
          update_lem (λ k u. ticket u ≡ some n → j ≡ k) f i t (λ b. sym (apart j d b a))
            (λ k d b. one j k n a b) k)
        j

  -- The action of a thread keeps the invariant.
  pub Inv-Frame :
      (s : System A) (i : ℕ) (q' : Queue A) (h' : List A) (t : Thread A)
      → Inv c s
      → Frame s.queue s.pushes q' h' (push_ticket (s.threads i)) (pop_ticket (s.threads i))
      → Shared c q' h'
      → Knows c q' h' t
      → ((n : ℕ)
          → push_ticket t ≡ some n
          → (push_ticket (s.threads i) ≡ some n) ⊎ (s.queue.next_enqueue ≤ n))
      → ((n : ℕ)
          → pop_ticket t ≡ some n
          → (pop_ticket (s.threads i) ≡ some n) ⊎ (s.queue.next_dequeue ≤ n))
      → Inv c (record { queue = q'; threads = update s.threads i t; pushes = h' })
  Inv-Frame s i q' h' t v f shared known push_own pop_own = record {
    shared = shared;
    knows =
        update_lem (λ j u. Knows c q' h' u) s.threads i t known
          (λ j d.
            Knows-Frame f (s.threads j) (λ n e m. d (v.one_push i j n (sym m) e))
              (λ n e m. d (v.one_pop i j n (sym m) e)) (v.knows j));
    one_push =
        one_ticket push_ticket s.threads i t s.queue.next_enqueue
          (λ j n. push_ticket-lt s.queue s.pushes (s.threads j) n (v.knows j)) push_own v.one_push;
    one_pop =
        one_ticket pop_ticket s.threads i t s.queue.next_dequeue
          (λ j n. pop_ticket-lt s.queue s.pushes (s.threads j) n (v.knows j)) pop_own v.one_pop;
  }
