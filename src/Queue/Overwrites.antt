-- ===== src/Queue/Overwrites.antt =====
-- A queue with one slot: minet/src/threading/Queue.h.
use minet_core.Prelude.{ℕ, suc, true, false, [], ◌∷◌, ◌≡◌, refl, zero}
use minet_core.Queue.{Thread, advance}
use minet_core.Queue.Alone.{finishes}
use minet_core.Queue.Threads.{
  System, Reaches, initial, call, move, call_push, move_on, start, later,
}

module _ {A : Type 0} (leave : A → A) (blank a b : A) where
  abbrev on : System A → System A
  on s = move leave false s 0

  -- A thread calls `Push` with `a`, and `Push` with `b`.
  abbrev first : System A
  first = on (on (on (on (on (call (initial blank 1) 0 (Thread.push_load a))))))

  abbrev second : System A
  second = on (on (on (on (on (call first 0 (Thread.push_load b))))))

  go :
      {n : ℕ} {s : System A}
      → Reaches leave (initial blank 1) n s
      → Reaches leave (initial blank 1) (suc n) (on s)
  go r = later r (move_on false 0)

  spins :
      (n : ℕ)
      → (finishes leave n second.queue Thread.pop_load ≡ false)
        × (finishes leave n second.queue (Thread.pop_check 0) ≡ false)
  unfolding finishes advance
  spins zero = (refl, refl)
  spins (suc n) = let (e, g) = spins n in (g, e)

  -- With a capacity of 1, which is a power of two, a second call of `Push` overwrites the data of the
  -- first and succeeds as well. A call of `Pop` that goes on alone after that never ends.
  pub one_slot-spins :
      (s : System A) × Reaches leave (initial blank 1) 12 s
      × (s.threads 0 ≡ Thread.pushed true)
      × (s.pushes ≡ a ∷ b ∷ [])
      × ((n : ℕ) → finishes leave n s.queue Thread.pop_load ≡ false)
  unfolding advance
  one_slot-spins = (
    second,
    go (
        go (
          go (
            go (
              go (
                later (go (go (go (go (go (later start (call_push 0 a refl)))))))
                  (call_push 0 b refl)))))),
    refl,
    refl,
    λ n. (spins n).0,
  )
