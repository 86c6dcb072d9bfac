-- ===== src/Server.antt =====
-- How servers start and stop: minet/src/components/MayhemServer.cpp, and BasicServer.cpp and
-- ThreadedServer.cpp, over the sockets of Net.
pub mod Config
pub mod Opens
pub mod Events
pub mod Handles
pub mod Loops
pub mod Hands
mod Tests
mod Busy
mod Idle
use minet_core.Prelude.{ℕ, List, Option, Bool, true, false, not, if◌then◌else◌}
use minet_core.Prelude.Int.{ℤ, pos, negsuc, is_negative, is_pos}
use minet_core.Net.{Calls, open_socket, close_socket}

-- What `epoll::Wait` puts into the buffer of events; `readable` is the test on EPOLLIN.
pub record Event : Type 0 where
  pub fd : ℤ
  pub readable : Bool

-- The system calls behind `epoll::Create`, `epoll::Monitor` for input, `epoll::Unmonitor` and
-- `epoll::Wait`, where none is -1.
pub record EpollCalls (K : Type 0) : Type 0 where
  pub create : K → ℤ × K
  pub monitor : K → ℤ → ℤ → ℤ × K
  pub unmonitor : K → ℤ → ℤ → ℤ × K
  pub wait : K → ℤ → ℕ → Option (List Event) × K

-- The fields that `StartAsync` and `Stop` use; a server without an epoll leaves `epoll_fd` at 0.
-- `has_callback` is the test on `_onConnectionCallback`.
pub record Server : Type 0 where
  pub port : ℕ
  pub has_callback : Bool
  pub listen_fd : ℤ
  pub epoll_fd : ℤ
  pub running : Bool

-- The constructors
abbrev pub create : ℕ → Bool → Server
create port callback = record {
  port = port;
  has_callback = callback;
  listen_fd = pos 0;
  epoll_fd = pos 0;
  running = false;
}

-- `Stop`
abbrev pub stop : Server → Server
stop s = record s { running = false }

-- `_epollFd == -1`
abbrev pub is_minus_one : ℤ → Bool
is_minus_one (pos n) = false
is_minus_one (negsuc n) = is_pos (pos n) 0

module _ {K : Type 0} (calls : Calls K) (epoll : EpollCalls K) where
  -- `_OpenSocket`
  abbrev pub open_listen : Server → K → Server × K
  open_listen s k =
      let (fd, k') = open_socket calls k s.port false in
      (record s { listen_fd = if is_negative fd then pos 0 else fd }, k')

  -- `_CloseSocket`
  abbrev pub close_listen : Server → K → Server × K
  close_listen s k =
      if is_pos s.listen_fd 0
      then (s, k)
      else (let (r, k') = close_socket calls k s.listen_fd in (record s { listen_fd = pos 0 }, k'))

  -- `_OpenEpoll`
  abbrev pub open_epoll : Server → K → Server × K
  open_epoll s k =
      let (fd, k') = epoll.create k in
      (record s { epoll_fd = if is_minus_one fd then pos 0 else fd }, k')

  -- `_CloseEpoll`
  abbrev pub close_epoll : Server → K → Server × K
  close_epoll s k =
      if is_pos s.epoll_fd 0
      then (s, k)
      else (let (r, k') = close_socket calls k s.epoll_fd in (record s { epoll_fd = pos 0 }, k'))

  -- What `StartAsync` of `MayhemServer` does after the call of `Monitor`, which returned `r`.
  abbrev pub after_monitor : Server → ℤ × K → Server × K
  after_monitor s (r, k) =
      if is_pos r 0
      then (record s { running = true }, k)
      else (let (s', k') = close_listen s k in close_epoll s' k')

  -- After `_OpenEpoll`
  abbrev pub after_epoll : Server × K → Server × K
  after_epoll (s, k) =
      if is_pos s.epoll_fd 0
      then close_listen s k
      else after_monitor s (epoll.monitor k s.epoll_fd s.listen_fd)

  -- After `_OpenSocket`
  abbrev pub after_listen : Server × K → Server × K
  after_listen (s, k) = if is_pos s.listen_fd 0 then (s, k) else after_epoll (open_epoll s k)

  -- `StartAsync` of `MayhemServer`. The task serves when the server runs, and is completed otherwise.
  unfoldable pub start_async : Server → K → Server × K
  start_async s k =
      if s.running
      then (s, k)
      else if not s.has_callback
      then (s, k)
      else after_listen (open_listen s k)

  -- After `_OpenSocket` in `BasicServer` and `ThreadedServer`
  abbrev pub after_basic_listen : Server × K → Server × K
  after_basic_listen (s, k) =
      if is_pos s.listen_fd 0 then (s, k) else (record s { running = true }, k)

  -- `StartAsync` of `BasicServer` and `ThreadedServer`
  unfoldable pub basic_start_async : Server → K → Server × K
  basic_start_async s k =
      if s.running
      then (s, k)
      else if not s.has_callback
      then (s, k)
      else after_basic_listen (open_listen s k)
