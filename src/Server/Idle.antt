-- ===== src/Server/Idle.antt =====
-- A run of the loop of minet/src/components/ThreadedServer.cpp, for the theorem at a concrete input.
use minet_core.Prelude.{
  ℕ, zero, suc, ◌+◌, ◌-◌, ◌≤◌, ◌<◌, Bool, true, false, none, ◌≡◌, ◌≢◌, refl, arith,
}
use minet_core.Prelude.Int.{ℤ, pos, negsuc, is_negative}
use minet_core.Prelude.Result.{Result}
use minet_core.Request.{empty_request, empty_response}
use minet_core.Net.{Calls}
use minet_core.Net.Opens.{one}
use minet_core.Server.{Server, EpollCalls, create}
use minet_core.Server.Loops.{Clients, threaded_serve}
use minet_core.Server.Hands.{HoldsFds, Stops, HandedOver}
use minet_core.Server.Hands.Ends.{threaded_serve-HandedOver}

-- How often a descriptor is held, and the loads of `_isRunning` before the one that finds it cleared.
abbrev World : Type 0
World = (ℤ → ℕ) × ℕ

abbrev taken : World → ℤ → World
taken k fd = ((λ x. k.0 x - one fd x), k.1)

-- Connections come as long as the server runs, with the descriptor 5.
abbrev accepted : World → ℤ × World
accepted (h, zero) = (negsuc 0, (h, zero))
accepted (h, suc n) = (pos 5, ((λ x. h x + one (pos 5) x), suc n))

abbrev loaded : World → Bool × World
loaded (h, zero) = (true, (h, zero))
loaded (h, suc n) = (false, (h, n))

abbrev calls : Calls World
calls = record {
  socket = λ k. (pos 3, k);
  set_reuse = λ k fd. (pos 0, k);
  bind = λ k fd port. (pos 0, k);
  listen = λ k fd n. (pos 0, k);
  get_flags = λ k fd. (pos 0, k);
  set_nonblock = λ k fd flag. (pos 0, k);
  accept = λ k fd. accepted k;
  close = λ k fd. (pos 0, taken k fd);
}

abbrev no_epoll : EpollCalls World
no_epoll = record {
  create = λ k. (negsuc 0, k);
  monitor = λ k e fd. (negsuc 0, k);
  unmonitor = λ k e fd. (negsuc 0, k);
  wait = λ k e n. (none, k);
}

abbrev clients : Clients World
clients = record {
  create_context = λ k fd. (
    Result.returned (pos 0, record { request = empty_request 5; response = empty_response 5 }),
    k,
  );
  callback = λ k c. (Result.returned tt, k);
  submit = λ k fd. (true, taken k fd);
  interrupted = λ k. loaded k;
}

accepted-fails :
    (k : World) (x : ℤ) → is_negative (accepted k).0 ≡ true → (accepted k).1.0 x ≡ k.0 x
accepted-fails (h, zero) x e = refl
accepted-fails (h, suc n) x e = cc

accepted-holds :
    (k : World) (x : ℤ)
    → is_negative (accepted k).0 ≡ false
    → (accepted k).1.0 x ≡ k.0 x + one (accepted k).0 x
accepted-holds (h, zero) x e = cc
accepted-holds (h, suc n) x e = refl

accepted-ne : (k : World) → (accepted k).0 ≢ pos 0
accepted-ne (h, zero) e = cc
accepted-ne (h, suc n) e = cc

accepted-left : (k : World) → (accepted k).1.1 ≤ k.1
accepted-left (h, zero) = omega arith
accepted-left (h, suc n) = omega arith

loaded-keeps : (k : World) (x : ℤ) → (loaded k).1.0 x ≡ k.0 x
loaded-keeps (h, zero) x = refl
loaded-keeps (h, suc n) x = refl

loaded-off : (k : World) → (loaded k).0 ≡ true → (loaded (loaded k).1).0 ≡ true
loaded-off (h, zero) e = refl
loaded-off (h, suc n) e = cc

loaded-left : (k : World) → (loaded k).1.1 ≤ k.1
loaded-left (h, zero) = omega arith
loaded-left (h, suc n) = omega arith

loaded-less : (k : World) → (loaded k).0 ≡ false → (loaded k).1.1 < k.1
loaded-less (h, zero) e = cc
loaded-less (h, suc n) e = omega arith

laws : HoldsFds calls no_epoll clients (λ k. k.0)
laws = record {
  accept_fails = λ k fd x e. accepted-fails k x e;
  accept_holds = λ k fd x e. accepted-holds k x e;
  accept-ne = λ k fd. accepted-ne k;
  close_frees = λ k fd x. refl;
  submit_hands = λ k fd x e. refl;
  submit_refuses = λ k fd x e. cc;
  load_keeps = loaded-keeps;
  stays_off = loaded-off;
}

stops : Stops calls no_epoll clients (λ k. k.1)
stops = record {
  accept_le = λ k fd. accepted-left k;
  close_le = λ k fd. omega arith;
  submit_le = λ k fd. omega arith;
  load_le = loaded-left;
  load_lt = loaded-less;
}

abbrev started : Server
started = record (create 80 true) { listen_fd = pos 3; running = true }

abbrev at_start : World
at_start = ((λ x. one (pos 3) x), 3)

threaded_serve-HandedOver_example :
    HandedOver calls no_epoll clients
      (λ k. k.0)
      started
      at_start
      (threaded_serve calls no_epoll clients 4 4 started at_start)
threaded_serve-HandedOver_example =
    threaded_serve-HandedOver calls no_epoll clients (λ k. k.1) stops (λ k. k.0) laws 4 4 started
      at_start refl (omega arith) (omega arith)
