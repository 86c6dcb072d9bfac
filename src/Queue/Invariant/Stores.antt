-- ===== src/Queue/Invariant/Stores.antt =====
-- The stores to a slot by a thread that has taken its number: minet/src/threading/Queue.h.
use minet_core.Prelude.{
  ℕ, ◌+◌, ◌≤◌, ◌<◌, List, ◌≡◌, ◌≢◌, ◌⊎◌, inl, inr, refl, sym, ap, ◌∙◌, arith, none, some, get_elem?,
  true, ◌==◌, Bool-cases,
}
use mathlib.Core.Path.{subst}
use minet_core.Queue.{Slot, Queue, place, slot, put_slot}
use minet_core.Queue.Invariant.{Apart, Fills, Empties, Shared, Stored, put_slot_lem}
use minet_core.Queue.Invariant.Frames.{Frame}

module _ {A : Type 0} (c : ℕ) (two : 2 ≤ c) (q : Queue A) (h : List A) (v : Shared c q h) (n : ℕ)
    (x : Slot A) where
  at : (k : ℕ) → Stored c q n x k
  at = put_slot_lem c q n x v.spread

  -- Who relies on another slot than the one that changes.
  abbrev OtherSlot : ℕ → Type 0
  OtherSlot k = (slot q k ≡ slot q n) → Apart c n k → ⊥

  index-slot : (k : ℕ) → slot q k ≡ slot q n → (slot q k).index ≡ (slot q n).index
  index-slot k e = ap (λ (s : Slot A). s.index) e

  unchanged : (k : ℕ) → OtherSlot k → slot (put_slot q n x) k ≡ slot q k
  unchanged k d = elim (at k) [ inl (e, o, a) ↦ absurd (d o a) | inr e ↦ e ]

  index_unchanged : (k : ℕ) → OtherSlot k → (slot (put_slot q n x) k).index ≡ (slot q k).index
  index_unchanged k d = ap (λ (s : Slot A). s.index) (unchanged k d)

  content_unchanged : (k : ℕ) → OtherSlot k → (slot (put_slot q n x) k).content ≡ (slot q k).content
  content_unchanged k d = ap (λ (s : Slot A). s.content) (unchanged k d)

  ahead_put :
      n < q.next_enqueue
      → x.index ≤ n + c
      → (m : ℕ) → q.next_enqueue ≤ m
      → (slot (put_slot q n x) m).index ≤ m
  ahead_put below top m low = elim (at m) [
    | inl (e, o, a) ↦
        let i : (slot (put_slot q n x) m).index ≡ x.index = ap (λ (s : Slot A). s.index) e in
        elim a [
          | inl b ↦ absurd (omega arith)
          | inr (inl b) ↦ omega arith
          | inr (inr b) ↦ absurd (omega arith)
        ]
    | inr e ↦ omega (arith, ap (λ (s : Slot A). s.index) e, v.ahead m low)
  ]

  pub put_self : slot (put_slot q n x) n ≡ x
  put_self = let same : (place q n == place q n) ≡ true = ground arith in rw same refl

  -- By a thread in `Push`
  module _ (f : Fills c q n) where
    free_elsewhere : (k : ℕ) → q.next_enqueue ≤ k → (slot q k).index ≡ k → OtherSlot k
    free_elsewhere k g e o a = let (low, high, i) = f in omega (arith, index-slot k o)

    full_elsewhere : (k : ℕ) → (slot q k).index ≡ k + 1 → OtherSlot k
    full_elsewhere k e o a =
        let (low, high, i) = f in
        let j = index-slot k o in
        elim a [ inl b ↦ omega arith | inr (inl b) ↦ omega arith | inr (inr b) ↦ omega arith ]

    fills_elsewhere : (k : ℕ) → k ≢ n → (slot q k).index ≡ k → OtherSlot k
    fills_elsewhere k d e o a = let (low, high, i) = f in d (omega (arith, index-slot k o))

    pub put_fills-Frame : Frame c q h (put_slot q n x) h (some n) none
    put_fills-Frame = record {
      kept = λ m d e. e;
      pushes_grow = omega arith;
      pops_grow = omega arith;
      free = λ k g b. index_unchanged k (free_elsewhere k b (g b)) ∙ g b;
      full = λ k (b, g). (b, λ d. index_unchanged k (full_elsewhere k (g d)) ∙ g d);
      fills = λ k d (low, high, i).
          let away = fills_elsewhere k (λ e. d (ap some e)) i in
          ((low, high, index_unchanged k away ∙ i), content_unchanged k away);
      empties = λ k d (low, high, i).
          let away = full_elsewhere k i in
          ((low, high, index_unchanged k away ∙ i), content_unchanged k away);
    }

    pub put_fills-Shared :
        x.index ≤ n + c
        → (x.index ≡ n) ⊎ ((x.index ≡ n + 1) × (get_elem? h n ≡ some x.content))
        → Shared c (put_slot q n x) h
    put_fills-Shared top full = record {
      capacity_is = v.capacity_is;
      spread = v.spread;
      round = v.round;
      ordered = v.ordered;
      room = v.room;
      counted = v.counted;
      window = λ m low high. elim (Bool-cases (n == m)) [
        | inl e ↦
            let same : n ≡ m = ground arith in
            let i : (slot (put_slot q n x) n).index ≡ x.index =
              ap (λ (s : Slot A). s.index) put_self in
            let d : (slot (put_slot q n x) n).content ≡ x.content =
              ap (λ (s : Slot A). s.content) put_self in
            subst
              (λ k.
                ((slot (put_slot q n x) k).index ≡ k)
                ⊎ (((slot (put_slot q n x) k).index ≡ k + 1)
                    × (get_elem? h k ≡ some (slot (put_slot q n x) k).content)))
              same
              (elim full [ inl j ↦ inl (i ∙ j) | inr (j, g) ↦ inr (i ∙ j, g ∙ ap some (sym d)) ])
        | inr e ↦ elim (v.window m low high) [
          | inl i ↦ inl (index_unchanged m (fills_elsewhere m (λ g. ground arith) i) ∙ i)
          | inr (i, g) ↦ inr (
            index_unchanged m (full_elsewhere m i) ∙ i,
            g ∙ ap some (sym (content_unchanged m (full_elsewhere m i))),
          )
        ]
      ];
      ahead = λ m low. ahead_put (let (below, above, j) = f in above) top m low;
    }

  -- By a thread in `Pop`
  module _ (f : Empties c q n) where
    next_elsewhere : (k : ℕ) → (slot q k).index ≡ k → OtherSlot k
    next_elsewhere k e o a =
        let (low, high, i) = f in
        let j = index-slot k o in
        elim a [ inl b ↦ omega arith | inr (inl b) ↦ omega arith | inr (inr b) ↦ omega arith ]

    other_elsewhere : (k : ℕ) → k ≢ n → (slot q k).index ≡ k + 1 → OtherSlot k
    other_elsewhere k d e o a = let (low, high, i) = f in d (omega (arith, index-slot k o))

    pub put_empties-Frame : Frame c q h (put_slot q n x) h none (some n)
    put_empties-Frame = record {
      kept = λ m d e. e;
      pushes_grow = omega arith;
      pops_grow = omega arith;
      free = λ k g b. index_unchanged k (next_elsewhere k (g b)) ∙ g b;
      full = λ k (b, g). (
        b,
        λ d.
            index_unchanged k (other_elsewhere k (λ e. let (low, high, i) = f in omega arith) (g d))
            ∙ g d,
      );
      fills = λ k d (low, high, i).
          let away = next_elsewhere k i in
          ((low, high, index_unchanged k away ∙ i), content_unchanged k away);
      empties = λ k d (low, high, i).
          let away = other_elsewhere k (λ e. d (ap some e)) i in
          ((low, high, index_unchanged k away ∙ i), content_unchanged k away);
    }

    -- The window and what is ahead, after the store of a higher index.
    pub put_empties-Shared : x.index ≤ n + c → Shared c (put_slot q n x) h
    put_empties-Shared top = record {
      capacity_is = v.capacity_is;
      spread = v.spread;
      round = v.round;
      ordered = v.ordered;
      room = v.room;
      counted = v.counted;
      window = λ m low high. elim (v.window m low high) [
        | inl i ↦ inl (index_unchanged m (next_elsewhere m i) ∙ i)
        | inr (i, e) ↦
            let away = other_elsewhere m (λ e. let (below, above, j) = f in omega arith) i in
            inr (index_unchanged m away ∙ i, e ∙ ap some (sym (content_unchanged m away)))
      ];
      ahead = λ m low. ahead_put (let (below, above, j) = f in omega (arith, v.ordered)) top m low;
    }
