-- ===== src/Queue/Tests.antt =====
-- Runs of the queue of minet/src/threading/Queue.h, and its theorems at concrete inputs.
use minet_core.Prelude.{
  ℕ, ◌<◌, ◌≤◌, true, false, ◌≡◌, ◌≢◌, refl, some, [], ◌∷◌, get_elem?, length, arith,
}
use minet_core.Queue.{Thread, advance, place, pushed}
use minet_core.Queue.Threads.{
  System, Reaches, initial, call, move, call_push, call_pop, move_on, start, later,
}
use minet_core.Queue.Fifo.{pop_release-pushes}
use minet_core.Queue.Overwrites.{one_slot-spins}
use minet_core.Queue.Alone.{ticket, one_writer, finishes, finishes-alone}

-- What is moved out leaves 0.
abbrev cleared : ℕ → ℕ
cleared n = 0

abbrev on : ℕ → System ℕ → System ℕ
on i s = move cleared false s i

-- Thread 0 has called `Push`, and then thread 1 has called `Pop`, on a queue with two slots.
abbrev filled : System ℕ
filled = on 0 (on 0 (on 0 (on 0 (on 0 (call (initial 0 2) 0 (Thread.push_load 7))))))

abbrev emptying : System ℕ
emptying = on 1 (on 1 (on 1 (on 1 (call filled 1 Thread.pop_load))))

filled-pushed : filled.threads 0 ≡ pushed true
unfolding advance
filled-pushed = refl

filled-Reaches : Reaches cleared (initial 0 2) 6 filled
filled-Reaches =
    later
      (later
        (later
          (later (later (later start (call_push 0 7 refl)) (move_on false 0)) (move_on false 0))
          (move_on false 0))
        (move_on false 0))
      (move_on false 0)

emptying-Reaches : Reaches cleared (initial 0 2) 11 emptying
unfolding advance
emptying-Reaches =
    later
      (later
        (later (later (later filled-Reaches (call_pop 1 refl)) (move_on false 1)) (move_on false 1))
        (move_on false 1))
      (move_on false 1)

emptying-pop_release : emptying.threads 1 ≡ Thread.pop_release 0 7
unfolding advance
emptying-pop_release = refl

pop_release-pushes_example :
    (get_elem? emptying.pushes 0 ≡ some 7)
    × (0 < emptying.queue.next_dequeue)
    × (emptying.queue.next_dequeue ≤ length emptying.pushes)
pop_release-pushes_example =
    pop_release-pushes cleared 0 0 11 1 0 7 emptying emptying-Reaches (omega arith)
      emptying-pop_release

-- Two threads that have claimed a slot each.
abbrev claiming : System ℕ
claiming = on 1 (
    on 1 (
      on 1 (
        call (on 0 (on 0 (on 0 (call (initial 0 2) 0 (Thread.push_load 7))))) 1
          (Thread.push_load 8))))

claiming-Reaches : Reaches cleared (initial 0 2) 8 claiming
unfolding advance
claiming-Reaches =
    later
      (later
        (later
          (later
            (later
              (later (later (later start (call_push 0 7 refl)) (move_on false 0)) (move_on false 0))
              (move_on false 0))
            (call_push 1 8 refl))
          (move_on false 1))
        (move_on false 1))
      (move_on false 1)

claiming-tickets : (ticket (claiming.threads 0) ≡ some 0) × (ticket (claiming.threads 1) ≡ some 1)
unfolding advance
claiming-tickets = (refl, refl)

one_writer_example : place claiming.queue 0 ≢ place claiming.queue 1
one_writer_example =
    one_writer cleared 0 0 8 0 1 0 1 claiming claiming-Reaches (omega arith) (λ e. omega arith)
      claiming-tickets.0 claiming-tickets.1

one_slot-spins_example :
    (s : System ℕ) × Reaches cleared (initial 0 1) 12 s
    × (s.threads 0 ≡ Thread.pushed true)
    × (s.pushes ≡ 7 ∷ 8 ∷ [])
    × ((n : ℕ) → finishes cleared n s.queue Thread.pop_load ≡ false)
one_slot-spins_example = one_slot-spins cleared 0 7 8

finishes-alone_example : finishes cleared 6 emptying.queue (emptying.threads 1) ≡ true
finishes-alone_example = finishes-alone cleared 0 0 11 1 emptying emptying-Reaches (omega arith)
