-- ===== src/Server/Hands/Keeps.antt =====
-- Every connection is taken or closed, but perhaps one: minet/src/components/ThreadedServer.cpp.
use minet_core.Prelude.{
  ℕ, zero, suc, ◌+◌, ◌-◌, Bool, true, false, not, ◌&&◌, if◌then◌else◌, ◌≡◌, ◌≢◌, refl, ap, ◌∙◌,
  arith,
}
use minet_core.Prelude.Int.{ℤ, pos, negsuc, is_pos, is_positive, is_negative}
use minet_core.Net.{Calls, accept_socket, close_socket}
use minet_core.Net.Opens.{one}
use minet_core.Server.{Server, EpollCalls, close_listen, stop}
use minet_core.Server.Loops.{
  Clients, hand_over, threaded_connection, accept_while, serve_while, threaded_serve,
}
use minet_core.Sync.Calls.{Outcome, returned, out_of_fuel, ◌>>=◌}
use minet_core.Server.Hands.{
  HoldsFds, end, listens, HandedOver, all_over, one_over, IsLast, is_off, both, not-false, not-true,
}

module _ {K : Type 0} (calls : Calls K) (epoll : EpollCalls K) (clients : Clients K)
    (held : K → ℤ → ℕ) (laws : HoldsFds calls epoll clients held) where
  -- Nothing is held that was not, but perhaps one connection, and then the server is stopped.
  data Dropped (s : Server) (k : K) : Outcome K → Type 0 where
    nothing : {k' : K} → ((x : ℤ) → held k' x ≡ held k x) → Dropped s k (returned k')
    dropped :
        {k' : K} (fd : ℤ)
        → IsLast calls epoll clients s.listen_fd fd k'
        → ((x : ℤ) → held k' x ≡ held k x + one fd x)
        → (clients.interrupted k').0 ≡ true
        → Dropped s k (returned k')
    no_end : Dropped s k out_of_fuel

  -- The socket that listens is closed, and nothing is held that was not, but perhaps one connection; or the
  -- run has no end.
  pub data Handing (s : Server) (k : K) : Outcome (Server × K) → Type 0 where
    all_handed :
        {s' : Server} {k' : K}
        → ((x : ℤ) → held k' x ≡ held k x - listens calls epoll clients held s x)
        → Handing s k (returned (s', k'))
    one_left :
        {s' : Server} {k1 k' : K} (fd : ℤ)
        → IsLast calls epoll clients s.listen_fd fd k1
        → k' ≡ end calls epoll clients s k1
        → ((x : ℤ) → held k' x ≡ held k x + one fd x - listens calls epoll clients held s x)
        → Handing s k (returned (s', k'))
    no_end : Handing s k out_of_fuel

  Dropped-if :
      {s : Server} {k : K} (b : Bool) {o p : Outcome K}
      → (b ≡ true → Dropped s k o)
      → (b ≡ false → Dropped s k p)
      → Dropped s k (if b then o else p)
  Dropped-if true f g = f refl
  Dropped-if false f g = g refl

  Dropped-trans :
      {s : Server} {k k' : K} {o : Outcome K}
      → ((x : ℤ) → held k' x ≡ held k x)
      → Dropped s k' o
      → Dropped s k o
  Dropped-trans h (nothing f) = nothing (λ x. f x ∙ h x)
  Dropped-trans h (dropped fd last f off) =
      dropped fd last (λ x. f x ∙ ap (λ n. n + one fd x) (h x)) off
  Dropped-trans h no_end = no_end

  if-held :
      (b : Bool) (k1 k2 : K) (x : ℤ) {n : ℕ}
      → (b ≡ true → held k1 x ≡ n)
      → (b ≡ false → held k2 x ≡ n)
      → held (if b then k1 else k2) x ≡ n
  if-held true k1 k2 x f g = f refl
  if-held false k1 k2 x f g = g refl

  hand_over-held :
      (k : K) (fd x : ℤ) → held (hand_over calls epoll clients k fd) x ≡ held k x - one fd x
  hand_over-held k fd x =
      let r = clients.submit k fd in
      if-held r.0 r.1 (close_socket calls r.1 fd).1 x (laws.submit_hands k fd x)
        λ e. laws.close_frees r.1 fd x ∙ ap (λ n. n - one fd x) (laws.submit_refuses k fd x e)

  positive-held :
      (r : ℤ) (k k' : K) (x : ℤ)
      → (is_negative r ≡ false → held k' x ≡ held k x + one r x)
      → is_positive r ≡ true
      → held k' x ≡ held k x + one r x
  positive-held (pos n) k k' x h e = h refl
  positive-held (negsuc n) k k' x h e = cc

  not_positive-held :
      (r : ℤ) (k k' : K) (x : ℤ)
      → r ≢ pos 0
      → (is_negative r ≡ true → held k' x ≡ held k x)
      → is_positive r ≡ false
      → held k' x ≡ held k x
  not_positive-held (pos zero) k k' x ne h e = absurd (ne refl)
  not_positive-held (pos (suc n)) k k' x ne h e = ground arith
  not_positive-held (negsuc n) k k' x ne h e = h refl

  accept-held :
      (k : K) (fd x : ℤ)
      → (accept_socket calls k fd).0 ≡ true
      → held (accept_socket calls k fd).2 x ≡ held k x + one (accept_socket calls k fd).1 x
  accept-held k fd x =
      positive-held (calls.accept k fd).0 k (calls.accept k fd).1 x (laws.accept_holds k fd x)

  accept-held_not :
      (k : K) (fd x : ℤ)
      → (accept_socket calls k fd).0 ≡ false
      → held (accept_socket calls k fd).2 x ≡ held k x
  accept-held_not k fd x =
      not_positive-held (calls.accept k fd).0 k (calls.accept k fd).1 x (laws.accept-ne k fd)
        (laws.accept_fails k fd x)

  accept_while-Dropped :
      (fuel : ℕ) (s : Server) (k : K)
      → s.running ≡ true
      → Dropped s k
          (accept_while calls epoll clients (threaded_connection calls epoll clients) fuel s k)
  unfolding accept_while
  accept_while-Dropped zero s k on = no_end
  accept_while-Dropped (suc fuel) s k on =
      let a = accept_socket calls k s.listen_fd in
      let i = clients.interrupted a.2 in
      Dropped-if (not a.0) (λ e. nothing (λ x. accept-held_not k s.listen_fd x (not-false a.0 e)))
        λ e.
          Dropped-if (s.running && not i.0)
            (λ f.
              Dropped-trans
                (λ x.
                  hand_over-held i.1 a.1 x
                  ∙ omega
                      (arith, laws.load_keeps a.2 x, accept-held k s.listen_fd x (not-true a.0 e)))
                (accept_while-Dropped fuel s (hand_over calls epoll clients i.1 a.1) on))
            λ f.
              let off = is_off s.running i.0 on f in
              dropped a.1
                (record {
                  before = k;
                  is_accepted = not-true a.0 e;
                  fd_is = refl;
                  is_stopped = off;
                  state_is = refl;
                })
                (λ x. laws.load_keeps a.2 x ∙ accept-held k s.listen_fd x (not-true a.0 e))
                (laws.stays_off a.2 off)

  Handing-if :
      {k : K} {s : Server} (b : Bool) {o p : Outcome (Server × K)}
      → (b ≡ true → Handing s k o)
      → (b ≡ false → Handing s k p)
      → Handing s k (if b then o else p)
  Handing-if true f g = f refl
  Handing-if false f g = g refl

  Handing-trans :
      {k k' : K} {s : Server} {o : Outcome (Server × K)}
      → ((x : ℤ) → held k' x ≡ held k x)
      → Handing s k' o
      → Handing s k o
  Handing-trans {s = s} h (all_handed f) =
      all_handed (λ x. f x ∙ ap (λ n. n - listens calls epoll clients held s x) (h x))
  Handing-trans {s = s} h (one_left fd last e f) =
      one_left fd last e
        (λ x. f x ∙ ap (λ n. n + one fd x - listens calls epoll clients held s x) (h x))
  Handing-trans h no_end = no_end

  if-closed :
      (b : Bool) (t u : Server) (k k' : K) (x : ℤ) (n : ℕ)
      → held k' x ≡ held k x - n
      → let r : Server × K = if b then (t, k) else (u, k') in
        held r.1 x ≡ held k x - (if b then 0 else n)
  if-closed true t u k k' x n h = omega arith
  if-closed false t u k k' x n h = h

  close_listen-held :
      (s : Server) (k : K) (x : ℤ)
      → held (close_listen calls epoll (stop s) k).1 x
        ≡ held k x - listens calls epoll clients held s x
  close_listen-held s k x =
      if-closed (is_pos s.listen_fd 0) _ _ k (close_socket calls k s.listen_fd).1 x
        (one s.listen_fd x) (laws.close_frees k s.listen_fd x)

  -- Only the socket that listens is closed.
  data Closed (s : Server) (k : K) : Outcome (Server × K) → Type 0 where
    closed :
        {s' : Server} {k' : K}
        → k' ≡ end calls epoll clients s k
        → ((x : ℤ) → held k' x ≡ held k x - listens calls epoll clients held s x)
        → Closed s k (returned (s', k'))
    no_end : Closed s k out_of_fuel

  Closed-if :
      {k : K} {s : Server} (b : Bool) (o : Outcome (Server × K)) {p : Outcome (Server × K)}
      → b ≢ true
      → (b ≡ false → Closed s k p)
      → Closed s k (if b then o else p)
  Closed-if true o f g = absurd (f refl)
  Closed-if false o f g = g refl

  Closed-dropped :
      {k k' : K} {s : Server} {o : Outcome (Server × K)} (fd : ℤ)
      → IsLast calls epoll clients s.listen_fd fd k'
      → ((x : ℤ) → held k' x ≡ held k x + one fd x)
      → Closed s k' o
      → Handing s k o
  Closed-dropped {s = s} fd last f (closed e g) =
      one_left fd last e (λ x. g x ∙ ap (λ n. n - listens calls epoll clients held s x) (f x))
  Closed-dropped fd last f no_end = no_end

  -- The rounds of a server that was stopped.
  serve_while-off :
      (rounds fuel : ℕ) (s : Server) (k : K)
      → (clients.interrupted k).0 ≡ true
      → Closed s k (
          serve_while calls epoll clients (threaded_connection calls epoll clients) rounds fuel s k)
  unfolding serve_while
  serve_while-off zero fuel s k off = no_end
  serve_while-off (suc rounds) fuel s k off =
      let i = clients.interrupted k in
      Closed-if (s.running && not i.0) _ (both s.running i.0 off) λ e. closed refl (λ x.
        close_listen-held s i.1 x
        ∙ ap (λ n. n - listens calls epoll clients held s x) (laws.load_keeps k x))

  -- The rounds after the inner loop.
  after_accept :
      (k : K) (o : Outcome K) (s : Server) (more : K → Outcome (Server × K))
      → Dropped s k o
      → ((k' : K) → Handing s k' (more k'))
      → ((k' : K) → (clients.interrupted k').0 ≡ true → Closed s k' (more k'))
      → Handing s k (o >>= more)
  after_accept k o s more (nothing f) g h = Handing-trans f (g _)
  after_accept k o s more (dropped fd last f off) g h = Closed-dropped fd last f (h _ off)
  after_accept k o s more no_end g h = no_end

  pub serve_while-Handing :
      (rounds fuel : ℕ) (s : Server) (k : K)
      → s.running ≡ true
      → Handing s k (threaded_serve calls epoll clients rounds fuel s k)
  unfolding serve_while
  serve_while-Handing zero fuel s k on = no_end
  serve_while-Handing (suc rounds) fuel s k on =
      let i = clients.interrupted k in
      Handing-if (s.running && not i.0)
        (λ e.
          Handing-trans (λ x. laws.load_keeps k x)
            (after_accept i.1 _ s _ (accept_while-Dropped fuel s i.1 on)
              (λ k'. serve_while-Handing rounds fuel s k' on)
              λ k' off. serve_while-off rounds fuel s k' off))
        λ e. all_handed (λ x.
          close_listen-held s i.1 x
          ∙ ap (λ n. n - listens calls epoll clients held s x) (laws.load_keeps k x))

  pub Handing-HandedOver :
      {s : Server} {k : K} {o : Outcome (Server × K)}
      → Handing s k o
      → o ≢ out_of_fuel
      → HandedOver calls epoll clients held s k o
  Handing-HandedOver (all_handed f) h = all_over f
  Handing-HandedOver (one_left fd last e f) h = one_over fd last e f
  Handing-HandedOver no_end h = absurd (h refl)
