-- ===== src/Queue/Invariant/Claims.antt =====
-- The compare-exchanges of `Push` and `Pop` that succeed: minet/src/threading/Queue.h.
use minet_core.Prelude.{
  ℕ, zero, suc, ◌+◌, ◌≤◌, ◌<◌, List, [], ◌∷◌, ◌++◌, ◌≡◌, ◌≢◌, inl, inr, refl, sym, ap, ◌∙◌, arith,
  none, some, get_elem?, length, length-append, ◌==◌, Bool-cases,
}
use minet_core.Queue.{Queue, place, slot}
use minet_core.Queue.Invariant.{Fills, Empties, Shared}
use minet_core.Queue.Invariant.Frames.{Frame}

get_elem?-front :
    {A : Type 0} (xs ys : List A) (n : ℕ) (d : A)
    → get_elem? xs n ≡ some d
    → get_elem? (xs ++ ys) n ≡ some d
get_elem?-front [] ys n d e = cc
get_elem?-front (x ∷ xs) ys zero d e = e
get_elem?-front (x ∷ xs) ys (suc n) d e = get_elem?-front xs ys n d e

get_elem?-last :
    {A : Type 0} (xs : List A) (n : ℕ) (d : A)
    → length xs ≡ n
    → get_elem? (xs ++ (d ∷ [])) n ≡ some d
get_elem?-last [] zero d e = refl
get_elem?-last [] (suc n) d e = absurd (omega arith)
get_elem?-last (x ∷ xs) zero d e = absurd (omega arith)
get_elem?-last (x ∷ xs) (suc n) d e = get_elem?-last xs n d (omega arith)

module _ {A : Type 0} (c : ℕ) (two : 2 ≤ c) (q : Queue A) (h : List A) (v : Shared c q h) where
  index-place : (n m : ℕ) → place q n ≡ place q m → (slot q n).index ≡ (slot q m).index
  index-place n m e = ap (λ i. (q.slots i).index) e

  module _ (n : ℕ) (d : A) (top : q.next_enqueue ≡ n) (i : (slot q n).index ≡ n) where
    -- After the one in `Push`
    abbrev after_push : Queue A
    after_push = record q { next_enqueue = suc n }

    pub push-Frame : Frame c q h after_push (h ++ (d ∷ [])) none none
    push-Frame = record {
      kept = λ m e g. get_elem?-front h (d ∷ []) m e g;
      pushes_grow = omega arith;
      pops_grow = omega arith;
      free = λ k g b. g (omega arith);
      full = λ k g. g;
      fills = λ k g (low, high, j). ((low, omega arith, j), refl);
      empties = λ k g (low, high, j).
          let far : q.next_enqueue ≢ k + c = λ e.
            omega (
              arith,
              index-place (k + c) k (v.round k),
              ap (λ a. (slot q a).index) (sym top ∙ e),
            ) in
          ((low, omega arith, j), refl);
    }

    not_all : q.next_enqueue < q.next_dequeue + c
    not_all =
        let far : q.next_enqueue ≢ q.next_dequeue + c = λ e.
          elim (v.window q.next_dequeue (omega arith) (omega arith)) [
            | inl j ↦ omega (
              arith,
              index-place (q.next_dequeue + c) q.next_dequeue (v.round q.next_dequeue),
              ap (λ a. (slot q a).index) (sym top ∙ e),
            )
            | inr (j, g) ↦ omega (
              arith,
              index-place (q.next_dequeue + c) q.next_dequeue (v.round q.next_dequeue),
              ap (λ a. (slot q a).index) (sym top ∙ e),
            )
          ] in
        omega (arith, v.room)

    pub push-Shared : Shared c after_push (h ++ (d ∷ []))
    push-Shared = record {
      capacity_is = v.capacity_is;
      spread = v.spread;
      round = v.round;
      ordered = omega (arith, v.ordered);
      room = omega (arith, not_all);
      counted = omega (arith, length-append h (d ∷ []), v.counted);
      window = λ m low high. elim (Bool-cases (n == m)) [
        | inl e ↦
            let same : n ≡ m = ground arith in
            inl (ap (λ a. (slot q a).index) (sym same) ∙ i ∙ same)
        | inr e ↦ elim (v.window m low (ground arith)) [
          | inl j ↦ inl j
          | inr (j, g) ↦ inr (j, get_elem?-front h (d ∷ []) m (slot q m).content g)
        ]
      ];
      ahead = λ m low. v.ahead m (omega arith);
    }

    pub push-Fills : Fills c after_push n × (get_elem? (h ++ (d ∷ [])) n ≡ some d)
    push-Fills =
        ((omega (arith, v.ordered), omega arith, i), get_elem?-last h n d (v.counted ∙ top))

  module _ (n : ℕ) (top : q.next_dequeue ≡ n) (i : (slot q n).index ≡ n + 1) where
    -- After the one in `Pop`
    abbrev after_pop : Queue A
    after_pop = record q { next_dequeue = suc n }

    not_empty : q.next_dequeue < q.next_enqueue
    not_empty =
        let far : q.next_enqueue ≢ n = λ e. omega (arith, v.ahead n (omega arith)) in
        omega (arith, v.ordered)

    pub pop-Frame : Frame c q h after_pop h none none
    pop-Frame = record {
      kept = λ m e g. g;
      pushes_grow = omega arith;
      pops_grow = omega arith;
      free = λ k g. g;
      full = λ k (b, g). (omega arith, λ e. absurd (omega arith));
      fills = λ k g (low, high, j).
          let other : n ≢ k = λ e. omega (arith, ap (λ a. (slot q a).index) e) in
          ((omega arith, high, j), refl);
      empties = λ k g (low, high, j). ((omega arith, high, j), refl);
    }

    pub pop-Shared : Shared c after_pop h
    pop-Shared = record {
      capacity_is = v.capacity_is;
      spread = v.spread;
      round = v.round;
      ordered = omega (arith, not_empty);
      room = omega (arith, v.room);
      counted = v.counted;
      window = λ m low high. v.window m (omega arith) high;
      ahead = v.ahead;
    }

    pub pop-Empties : Empties c after_pop n × (get_elem? h n ≡ some (slot q n).content)
    pop-Empties = (
      (omega arith, omega (arith, v.room), i),
      elim (v.window n (omega arith) (omega (arith, not_empty))) [
        | inl j ↦ absurd (omega arith)
        | inr (j, g) ↦ g
      ],
    )
