-- ===== src/Server/Hands.antt =====
-- Where the connections of a server go: minet/src/components/ThreadedServer.cpp.
pub mod Keeps
pub mod Ends
use minet_core.Prelude.{
  ℕ, zero, suc, ◌+◌, ◌-◌, ◌≤◌, ◌<◌, Bool, true, false, not, ◌&&◌, if◌then◌else◌, ◌≡◌, ◌≢◌, ◌⊎◌, inl,
  inr, refl, sym, ap, ◌∙◌, arith, Bool-cases,
}
use minet_core.Prelude.Int.{ℤ, pos, is_pos, is_negative}
use minet_core.Net.{Calls, accept_socket, close_socket}
use minet_core.Net.Opens.{one}
use minet_core.Server.{Server, EpollCalls, close_listen, stop}
use minet_core.Server.Loops.{
  Clients, threaded_connection, accept_while, serve_while, threaded_serve,
}
use minet_core.Sync.Calls.{Outcome, returned, thrown, undefined, out_of_fuel, ◌>>=◌}

pub is_off : (b c : Bool) → b ≡ true → (b && not c) ≡ false → c ≡ true
is_off true true h e = refl
is_off true false h e = sym e
is_off false c h e = cc

pub both : (b c : Bool) → c ≡ true → (b && not c) ≢ true
both true true h e = cc
both true false h e = cc
both false c h e = cc

pub is_on : (b c : Bool) → (b && not c) ≡ true → c ≡ false
is_on true true h = sym h
is_on true false h = refl
is_on false c h = cc

pub not-false : (b : Bool) → not b ≡ true → b ≡ false
not-false true e = sym e
not-false false e = refl

pub not-true : (b : Bool) → not b ≡ false → b ≡ true
not-true true e = refl
not-true false e = sym e

module _ {K : Type 0} (calls : Calls K) (epoll : EpollCalls K) (clients : Clients K) where
  -- `held k x` is how often the server holds the descriptor `x`. What `accept` returns is held, unless it is negative;
  -- it is not 0, the standard input. A descriptor that is closed, or that the pool takes, is held no more; what
  -- is stopped stays stopped.
  pub record HoldsFds (held : K → ℤ → ℕ) : Type 0 where
    pub accept_fails :
        (k : K) (fd x : ℤ)
        → is_negative (calls.accept k fd).0 ≡ true
        → held (calls.accept k fd).1 x ≡ held k x
    pub accept_holds :
        (k : K) (fd x : ℤ)
        → is_negative (calls.accept k fd).0 ≡ false
        → held (calls.accept k fd).1 x ≡ held k x + one (calls.accept k fd).0 x
    pub accept-ne : (k : K) (fd : ℤ) → (calls.accept k fd).0 ≢ pos 0
    pub close_frees : (k : K) (fd x : ℤ) → held (calls.close k fd).1 x ≡ held k x - one fd x
    pub submit_hands :
        (k : K) (fd x : ℤ)
        → (clients.submit k fd).0 ≡ true
        → held (clients.submit k fd).1 x ≡ held k x - one fd x
    pub submit_refuses :
        (k : K) (fd x : ℤ)
        → (clients.submit k fd).0 ≡ false
        → held (clients.submit k fd).1 x ≡ held k x
    pub load_keeps : (k : K) (x : ℤ) → held (clients.interrupted k).1 x ≡ held k x
    pub stays_off :
        (k : K)
        → (clients.interrupted k).0 ≡ true
        → (clients.interrupted (clients.interrupted k).1).0 ≡ true

  -- `left k` bounds how often `_isRunning` is still loaded before it is found cleared.
  pub record Stops (left : K → ℕ) : Type 0 where
    pub accept_le : (k : K) (fd : ℤ) → left (calls.accept k fd).1 ≤ left k
    pub close_le : (k : K) (fd : ℤ) → left (calls.close k fd).1 ≤ left k
    pub submit_le : (k : K) (fd : ℤ) → left (clients.submit k fd).1 ≤ left k
    pub load_le : (k : K) → left (clients.interrupted k).1 ≤ left k
    pub load_lt :
        (k : K) → (clients.interrupted k).0 ≡ false → left (clients.interrupted k).1 < left k

  -- The state `k` after a connection `fd` that was accepted when the server was stopped: `_isRunning` was loaded next, and
  -- found cleared.
  pub record IsLast (listen_fd fd : ℤ) (k : K) : Type 0 where
    pub before : K
    pub is_accepted : (accept_socket calls before listen_fd).0 ≡ true
    pub fd_is : (accept_socket calls before listen_fd).1 ≡ fd
    pub is_stopped : (clients.interrupted (accept_socket calls before listen_fd).2).0 ≡ true
    pub state_is : k ≡ (clients.interrupted (accept_socket calls before listen_fd).2).1

  -- The state in which the loop ends when it loads `_isRunning` in the state `k`, and finds it cleared.
  abbrev pub end : Server → K → K
  end s k = (close_listen calls epoll (stop s) (clients.interrupted k).1).1

  module _ (held : K → ℤ → ℕ) where
    -- What `_CloseSocket` takes away.
    abbrev pub listens : Server → ℤ → ℕ
    listens s x = if is_pos s.listen_fd 0 then 0 else one s.listen_fd x

    -- A run that ends: the socket that listens is closed, and every connection that was accepted was taken by the
    -- pool or closed, but perhaps the last one.
    pub data HandedOver (s : Server) (k : K) : Outcome (Server × K) → Type 0 where
      all_over :
          {s' : Server} {k' : K}
          → ((x : ℤ) → held k' x ≡ held k x - listens s x)
          → HandedOver s k (returned (s', k'))
      one_over :
          {s' : Server} {k1 k' : K} (fd : ℤ)
          → IsLast s.listen_fd fd k1
          → k' ≡ end s k1
          → ((x : ℤ) → held k' x ≡ held k x + one fd x - listens s x)
          → HandedOver s k (returned (s', k'))
