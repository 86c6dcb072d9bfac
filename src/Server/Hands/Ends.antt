-- ===== src/Server/Hands/Ends.antt =====
-- A server that is stopped ends, and where its connections went: minet/src/components/ThreadedServer.cpp.
use minet_core.Prelude.{
  ℕ, zero, suc, ◌≤◌, ◌<◌, Bool, true, false, not, ◌&&◌, if◌then◌else◌, ◌≡◌, ◌≢◌, refl, arith,
}
use minet_core.Prelude.Int.{ℤ}
use minet_core.Net.{Calls, accept_socket, close_socket}
use minet_core.Server.{Server, EpollCalls}
use minet_core.Server.Loops.{
  Clients, hand_over, threaded_connection, accept_while, serve_while, threaded_serve,
}
use minet_core.Sync.Calls.{Outcome, returned, out_of_fuel, ◌>>=◌}
use minet_core.Server.Hands.{HoldsFds, Stops, HandedOver, is_on}
use minet_core.Server.Hands.Keeps.{serve_while-Handing, Handing-HandedOver}

module _ {K : Type 0} (calls : Calls K) (epoll : EpollCalls K) (clients : Clients K) (left : K → ℕ)
    (stops : Stops calls epoll clients left) where
  -- A run of a loop that ends, with no more loads left than `n`.
  data Ends (n : ℕ) : Outcome K → Type 0 where
    ends : {k : K} → left k ≤ n → Ends n (returned k)

  Ends-if :
      (b : Bool) {o p : Outcome K} {n : ℕ}
      → (b ≡ true → Ends n o)
      → (b ≡ false → Ends n p)
      → Ends n (if b then o else p)
  Ends-if true f g = f refl
  Ends-if false f g = g refl

  Ends-le : {n m : ℕ} {o : Outcome K} → n ≤ m → Ends n o → Ends m o
  Ends-le h (ends e) = ends (omega (arith, h, e))

  if-left :
      (b : Bool) (k1 k2 : K) {n : ℕ} → left k1 ≤ n → left k2 ≤ n → left (if b then k1 else k2) ≤ n
  if-left true k1 k2 f g = f
  if-left false k1 k2 f g = g

  hand_over-left : (k : K) (fd : ℤ) → left (hand_over calls epoll clients k fd) ≤ left k
  hand_over-left k fd =
      let r = clients.submit k fd in
      if-left r.0 r.1 (close_socket calls r.1 fd).1 (stops.submit_le k fd)
        (omega (arith, stops.close_le r.1 fd, stops.submit_le k fd))

  accept_while-Ends :
      (fuel : ℕ) (s : Server) (k : K)
      → left k < fuel
      → Ends
          (left k)
          (accept_while calls epoll clients (threaded_connection calls epoll clients) fuel s k)
  unfolding accept_while
  accept_while-Ends zero s k h = absurd (omega (arith, h))
  accept_while-Ends (suc fuel) s k h =
      let a = accept_socket calls k s.listen_fd in
      let i = clients.interrupted a.2 in
      let c = hand_over calls epoll clients i.1 a.1 in
      Ends-if (not a.0) (λ e. ends (stops.accept_le k s.listen_fd))
        λ e.
          Ends-if (s.running && not i.0)
            (λ f.
              let less : left c < left k = omega (
                arith,
                hand_over-left i.1 a.1,
                stops.load_lt a.2 (is_on s.running i.0 f),
                stops.accept_le k s.listen_fd,
              ) in
              Ends-le (omega (arith, less)) (accept_while-Ends fuel s c (omega (arith, less, h))))
            λ f. ends (omega (arith, stops.load_le a.2, stops.accept_le k s.listen_fd))

  after_Ends :
      (n : ℕ) (o : Outcome K) (more : K → Outcome (Server × K))
      → Ends n o
      → ((k : K) → left k ≤ n → more k ≢ out_of_fuel)
      → (o >>= more) ≢ out_of_fuel
  after_Ends n o more (ends h) g = g _ h

  if-ne :
      (b : Bool) {o p : Outcome (Server × K)}
      → (b ≡ true → o ≢ out_of_fuel)
      → p ≢ out_of_fuel
      → (if b then o else p) ≢ out_of_fuel
  if-ne true f g = f refl
  if-ne false f g = g

  serve_while-ends :
      (rounds fuel : ℕ) (s : Server) (k : K)
      → left k < rounds
      → left k ≤ fuel
      → serve_while calls epoll clients (threaded_connection calls epoll clients) rounds fuel s k
        ≢ out_of_fuel
  unfolding serve_while
  serve_while-ends zero fuel s k h g = absurd (omega (arith, h))
  serve_while-ends (suc rounds) fuel s k h g =
      let i = clients.interrupted k in
      if-ne (s.running && not i.0)
        (λ e.
          let less : left i.1 < left k = stops.load_lt k (is_on s.running i.0 e) in
          after_Ends (left i.1) _ _ (accept_while-Ends fuel s i.1 (omega (arith, less, g))) λ k' le.
            serve_while-ends rounds fuel s k' (omega (arith, le, less, h))
              (omega (arith, le, less, g)))
        (λ e. cc)

  module _ (held : K → ℤ → ℕ) (laws : HoldsFds calls epoll clients held) where
    -- A server with a pool that runs, for any kernel, pool and interrupts with the laws of `HoldsFds` and `Stops`, by
    -- which `accept` returns no descriptor 0 and the server stops at some load of `_isRunning`: when there is fuel for more rounds than `_isRunning` is still loaded, the loop ends, the socket that listens is
    -- closed, and every connection that was accepted was taken by the pool or closed, but perhaps one. That one
    -- was accepted by the listening socket, `_isRunning` was found cleared when it was loaded next, and after
    -- that the loop only loaded it once more and closed the listening socket.
    pub threaded_serve-HandedOver :
        (rounds fuel : ℕ) (s : Server) (k : K)
        → s.running ≡ true
        → left k < rounds
        → left k ≤ fuel
        → HandedOver calls epoll clients held s k
            (threaded_serve calls epoll clients rounds fuel s k)
    threaded_serve-HandedOver rounds fuel s k on h g =
        Handing-HandedOver calls epoll clients held laws
          (serve_while-Handing calls epoll clients held laws rounds fuel s k on)
          (serve_while-ends rounds fuel s k h g)
