-- ===== src/Server/Loops.antt =====
-- The loops of the servers without an epoll: `_Serve` of minet/src/components/BasicServer.cpp and
-- ThreadedServer.cpp.
use minet_core.Prelude.{ℕ, zero, suc, Bool, not, ◌&&◌, if◌then◌else◌, codes}
use minet_core.Prelude.Int.{ℤ, is_pos}
use minet_core.Prelude.Result.{Result}
use minet_core.Request.{HttpContext}
use minet_core.Net.{Calls, accept_socket, close_socket}
use minet_core.Server.{Server, EpollCalls, close_listen, stop}
use minet_core.Server.Events.{decorate}
use minet_core.Sync.Calls.{Outcome, returned, thrown, out_of_fuel, ◌>>=◌}

-- What the loops do with a connection: `CreateHttpContext`, with the number that it returns, the callback on a
-- context, `Submit` of the handling of a connection, and the load of `_isRunning`, which an interrupt may
-- have cleared.
pub record Clients (K : Type 0) : Type 0 where
  pub create_context : K → ℤ → Result (ℤ × HttpContext) × K
  pub callback : K → HttpContext → Result {0} Unit × K
  pub submit : K → ℤ → Bool × K
  pub interrupted : K → Bool × K

module _ {K : Type 0} (calls : Calls K) (epoll : EpollCalls K) (clients : Clients K) where
  -- After the callback
  abbrev pub after_callback : Result {0} Unit × K → Outcome K
  after_callback (Result.returned u, k) = returned k
  after_callback (Result.thrown e, k) = thrown e

  -- `BasicServer` with a connection, from the number that `CreateHttpContext` returned; `_HandleConnection` of
  -- `ThreadedServer` is the same.
  abbrev pub after_create : Result (ℤ × HttpContext) × K → Outcome K
  after_create (Result.thrown e, k) = thrown e
  after_create (Result.returned (r, c), k) =
      if is_pos r 0
      then after_callback (clients.callback k (decorate (codes "Basic") c))
      else returned k

  -- The body of the inner `while` of `BasicServer`.
  abbrev pub basic_connection : K → ℤ → Outcome K
  basic_connection k fd = after_create (clients.create_context k fd)

  -- `Submit`, and the call of `CloseSocket` when the pool refuses.
  abbrev pub hand_over : K → ℤ → K
  hand_over k fd =
      let (taken, k') = clients.submit k fd in if taken then k' else (close_socket calls k' fd).1

  -- The body of the inner `while` of `ThreadedServer`.
  abbrev pub threaded_connection : K → ℤ → Outcome K
  threaded_connection k fd = returned (hand_over k fd)

  module _ (connection : K → ℤ → Outcome K) where
    -- The inner `while`, on fuel, with what it does with a connection.
    unfoldable pub accept_while : ℕ → Server → K → Outcome K
    accept_while zero s k = out_of_fuel
    accept_while (suc fuel) s k =
        let (ok, fd, k1) = accept_socket calls k s.listen_fd in
        let (off, k2) = clients.interrupted k1 in
        let more = connection k2 fd >>= accept_while fuel s in
        if not ok then returned k1 else if s.running && not off then more else returned k2

    -- `_Serve`, on fuel for its rounds and for those of the loop inside.
    unfoldable pub serve_while : ℕ → ℕ → Server → K → Outcome (Server × K)
    serve_while zero fuel s k = out_of_fuel
    serve_while (suc rounds) fuel s k =
        let (off, k1) = clients.interrupted k in
        let more = accept_while fuel s k1 >>= serve_while rounds fuel s in
        if s.running && not off then more else returned (close_listen calls epoll (stop s) k1)

  -- `_Serve` of `BasicServer`
  abbrev pub basic_serve : ℕ → ℕ → Server → K → Outcome (Server × K)
  basic_serve rounds fuel s k = serve_while basic_connection rounds fuel s k

  -- `_Serve` of `ThreadedServer`
  abbrev pub threaded_serve : ℕ → ℕ → Server → K → Outcome (Server × K)
  threaded_serve rounds fuel s k = serve_while threaded_connection rounds fuel s k
