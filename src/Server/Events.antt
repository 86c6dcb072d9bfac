-- ===== src/Server/Events.antt =====
-- The loop of the server with an epoll: `_Serve` of minet/src/components/MayhemServer.cpp.
use minet_core.Prelude.{
  ℕ, zero, suc, List, [], ◌∷◌, Option, none, some, Bool, false, not, ◌&&◌, ltb, leb, ◌==◌,
  if◌then◌else◌, Bytes, codes, bytes_eq,
}
use minet_core.Prelude.Int.{ℤ, pos, negsuc, is_negative, is_pos}
use minet_core.Prelude.Map.{insert}
use minet_core.Prelude.Result.{Result}
use minet_core.Request.{HttpContext}
use minet_core.Net.{Calls, accept_socket, close_socket}
use minet_core.Server.{Server, Event, EpollCalls, close_listen, close_epoll, stop}
use minet_core.Sync.Calls.{Outcome, returned, undefined, out_of_fuel, ◌>>=◌, lift}

-- The value of `int`s that are compared.
abbrev pub same_fd : ℤ → ℤ → Bool
same_fd (pos n) (pos m) = n == m
same_fd (negsuc n) (negsuc m) = n == m
same_fd a b = false

-- `MAX_FD`
abbrev pub max_fd : ℕ
max_fd = 1024

-- `data.SocketFd >= MAX_FD`
abbrev pub too_high : ℤ → Bool
too_high (pos n) = leb max_fd n
too_high (negsuc n) = false

-- What the loop does with connections: the constructor of `AsyncHttpContextBuilder` on what was accepted,
-- its `Parse` and its context, `Submit` of the callback on a context, and the load of `_isRunning`, which
-- an interrupt may have cleared.
pub record Connections (K H : Type 0) : Type 0 where
  pub connect : K → ℤ → H
  pub parse : K → H → Result (ℤ × H) × K
  pub context : H → HttpContext
  pub set_context : H → HttpContext → H
  pub submit : K → HttpContext → Bool × K
  pub interrupted : K → Bool × K

-- The server with `_handles`, where none is a null pointer.
pub record Mayhem (H : Type 0) : Type 0 where
  pub server : Server
  pub handles : ℕ → Option H

-- The handle of a descriptor; the array ends at `max_fd`.
abbrev pub handle_at : {H : Type 0} → (ℕ → Option H) → ℤ → Option H
handle_at handles (pos n) = if ltb n max_fd then handles n else none
handle_at handles (negsuc n) = none

-- An assignment to the handle of a descriptor.
abbrev pub put_handle : {H : Type 0} → (ℕ → Option H) → ℤ → Option H → ℕ → Option H
put_handle handles fd h i = if same_fd fd (pos i) then h else handles i

-- `_DecorateContext`
abbrev pub decorate : Bytes → HttpContext → HttpContext
decorate name c = record c {
  response = record (c.response) { headers = insert (codes "Server") name c.response.headers };
}

module _ {K H : Type 0} (calls : Calls K) (epoll : EpollCalls K) (conns : Connections K H) where
  -- The states that the loop goes through.
  abbrev pub Serving : Type 0
  Serving = Outcome (Mayhem H × K)

  -- `_MonitorFd`, and what follows a failure: the descriptor is closed.
  abbrev pub monitor_or_close : Mayhem H → K → ℤ → K
  monitor_or_close m k fd =
      let (r, k') = epoll.monitor k m.server.epoll_fd fd in
      if is_pos r 0 then k' else (close_socket calls k' fd).1

  -- A connection that was accepted gets its handle.
  abbrev pub add_handle : Mayhem H → K → ℤ → Mayhem H × K
  add_handle m k fd =
      let k' = monitor_or_close m k fd in
      (record m { handles = put_handle m.handles fd (some (conns.connect k' fd)) }, k')

  -- The `while` that accepts connections, on fuel.
  unfoldable pub accept_all : ℕ → Mayhem H → K → Serving
  accept_all zero m k = out_of_fuel
  accept_all (suc fuel) m k =
      let (ok, fd, k') = accept_socket calls k m.server.listen_fd in
      let (m'', k'') = add_handle m k' fd in
      let more = accept_all fuel m'' k'' in
      if not ok
      then returned (m, k')
      else if too_high fd
      then returned (m, (close_socket calls k' fd).1)
      else more

  -- `network::CloseSocket(fd); _handles[fd].reset();`
  abbrev pub drop_handle : Mayhem H → K → ℤ → Mayhem H × K
  drop_handle m k fd =
      let (r, k') = close_socket calls k fd in
      (record m { handles = put_handle m.handles fd none }, k')

  -- A request that is complete: the callback is submitted on its context.
  abbrev pub submit_context : Mayhem H → K → ℤ → H → Mayhem H × K
  submit_context m k fd h =
      let (r, k1) = epoll.unmonitor k m.server.epoll_fd fd in
      let c = decorate (codes "Mayhem") (conns.context h) in
      let m' : Mayhem H = record m {
        handles = put_handle m.handles fd (some (conns.set_context h c));
      } in
      let (ok, k2) = conns.submit k1 c in if ok then (m', k2) else drop_handle m' k2 fd

  -- After `Parse`, with the handle as it left it.
  abbrev pub after_parse : Mayhem H → K → ℤ → ℤ × H → Mayhem H × K
  after_parse m k fd (r, h) =
      let m' : Mayhem H = record m { handles = put_handle m.handles fd (some h) } in
      if is_pos r 1
      then submit_context m' k fd h
      else if is_negative r
      then drop_handle m' k fd
      else (m', k)

  -- The branch on EPOLLIN. A null handle is dereferenced.
  abbrev pub read_handle : Mayhem H → K → ℤ → Option H → Serving
  read_handle m k fd none = undefined
  read_handle m k fd (some h) =
      let (r, k') = conns.parse k h in do x ← lift r; returned (after_parse m k' fd x)

  -- The body of the `for` over the events.
  unfoldable pub handle_event : ℕ → Event → Mayhem H × K → Serving
  handle_event fuel e (m, k) =
      if same_fd e.fd m.server.listen_fd
      then accept_all fuel m k
      else if e.readable
      then read_handle m k e.fd (handle_at m.handles e.fd)
      else returned (m, k)

  -- The `for` over the events.
  unfoldable pub handle_events : ℕ → List Event → Mayhem H × K → Serving
  handle_events fuel [] s = returned s
  handle_events fuel (e ∷ es) s = do t ← handle_event fuel e s; handle_events fuel es t

  -- After `epoll::Wait`: when it failed, the server stops and there are no events.
  abbrev pub after_wait : ℕ → Mayhem H → Option (List Event) × K → Serving
  after_wait fuel m (none, k) = returned (record m { server = stop m.server }, k)
  after_wait fuel m (some es, k) = handle_events fuel es (m, k)

  -- The end of `_Serve`
  abbrev pub shut_down : Mayhem H → K → Mayhem H × K
  shut_down m k =
      let (s1, k1) = close_listen calls epoll m.server k in
      let (s2, k2) = close_epoll calls epoll s1 k1 in (record m { server = s2 }, k2)

  -- `_Serve`, on fuel for its rounds and for those of the loop inside.
  unfoldable pub serve : ℕ → ℕ → Mayhem H → K → Serving
  serve zero fuel m k = out_of_fuel
  serve (suc rounds) fuel m k =
      let (off, k1) = conns.interrupted k in
      let events = epoll.wait k1 m.server.epoll_fd 64 in
      let more = after_wait fuel m events >>= λ (t : Mayhem H × K). serve rounds fuel t.0 t.1 in
      if m.server.running && not off
      then more
      else returned (shut_down (record m { server = stop m.server }) k1)
