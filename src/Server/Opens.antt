-- ===== src/Server/Opens.antt =====
-- The descriptors of a server that starts: minet/src/components/MayhemServer.cpp, and BasicServer.cpp
-- and ThreadedServer.cpp.
use minet_core.Prelude.{
  ℕ, ◌+◌, Bool, true, false, not, ◌≡◌, ◌≢◌, inl, inr, refl, ap, ◌∙◌, arith, if◌then◌else◌,
  Bool-cases, ◌==◌,
}
use minet_core.Prelude.Int.{ℤ, pos, negsuc, is_negative, is_pos}
use minet_core.Net.{Calls, open_socket}
use minet_core.Net.Opens.{one, Counts, open_socket-opens, open_socket-ne}
use minet_core.Server.{
  EpollCalls, Server, open_listen, close_listen, open_epoll, close_epoll, is_minus_one,
  after_monitor, after_epoll, after_listen, after_basic_listen, start_async, basic_start_async,
}

-- 1 for a descriptor that is held; 0 stands for none.
abbrev pub held : ℤ → ℤ → ℕ
held fd x = if is_pos fd 0 then 0 else one fd x

-- What is documented of `epoll_create1`, which gives -1 or a new descriptor, and `epoll_ctl`.
pub record CountsEpoll {K : Type 0} (epoll : EpollCalls K) (count : K → ℤ → ℕ) : Type 0 where
  pub create_opens :
      (k : K) (x : ℤ)
      → count (epoll.create k).1 x
        ≡ count k x + (if is_minus_one (epoll.create k).0 then 0 else one (epoll.create k).0 x)
  pub create_positive : (k : K) → (epoll.create k).0 ≢ pos 0
  pub monitor_keeps : (k : K) (e fd x : ℤ) → count (epoll.monitor k e fd).1 x ≡ count k x

not_zero : (z : ℤ) → z ≢ pos 0 → is_pos z 0 ≡ false
not_zero (pos n) h = elim (Bool-cases (n == 0)) [
  | inl e ↦ let zero_is : n ≡ 0 = ground arith in absurd (h (ap pos zero_is))
  | inr e ↦ e
]
not_zero (negsuc n) h = refl

is_zero : (z : ℤ) → is_pos z 0 ≡ true → z ≡ pos 0
is_zero (pos n) e = let zero_is : n ≡ 0 = ground arith in ap pos zero_is
is_zero (negsuc n) e = cc

held-one : (z x : ℤ) → is_pos z 0 ≡ false → held z x ≡ one z x
held-one z x e = ap (λ b. if b then 0 else one z x) e

module _ {K : Type 0} (calls : Calls K) (epoll : EpollCalls K) (count : K → ℤ → ℕ)
    (c : Counts calls count) (d : CountsEpoll epoll count) where
  -- What a server holds is all that was opened.
  abbrev pub Holds : (ℤ → ℕ) → Server × K → Type 0
  Holds before (s, k) = (x : ℤ) → count k x ≡ before x + held s.listen_fd x + held s.epoll_fd x

  -- A server that does not run holds nothing.
  abbrev pub ReadyAt : (ℤ → ℕ) → Server × K → Type 0
  ReadyAt before (s, k) =
      Holds before (s, k) × (s.running ≡ false → (s.listen_fd ≡ pos 0) × (s.epoll_fd ≡ pos 0))

  pub record Ready (before : ℤ → ℕ) (m : Server × K) : Type 0 where
    pub holds : Holds before m
    pub stopped : m.0.running ≡ false → (m.0.listen_fd ≡ pos 0) × (m.0.epoll_fd ≡ pos 0)

  open_listen-Holds :
      (before : ℤ → ℕ) (s : Server) (k : K)
      → s.listen_fd ≡ pos 0
      → Holds before (s, k)
      → Holds before (open_listen calls epoll s k)
  open_listen-Holds before s k z h x =
      let (fd, k') = open_socket calls k s.port false in
      let none : held s.listen_fd x ≡ 0 = ap (λ l. held l x) z in
      let opened = open_socket-opens calls count c k s.port false x in
      elim (Bool-cases (is_negative fd)) [
        | inl e ↦ rw e (
            opened ∙ ap (λ b. count k x + (if b then 0 else one fd x)) e ∙ omega (arith, h x, none))
        | inr e ↦
            let some_fd = not_zero fd (open_socket-ne calls count c k s.port false) in
            rw (e, some_fd)
              (opened
                ∙ ap (λ b. count k x + (if b then 0 else one fd x)) e
                ∙ omega (arith, h x, none))
      ]

  close_listen-Holds :
      (before : ℤ → ℕ) (s : Server) (k : K)
      → Holds before (s, k)
      → Holds before (close_listen calls epoll s k)
        × ((close_listen calls epoll s k).0.listen_fd ≡ pos 0)
        × ((close_listen calls epoll s k).0.epoll_fd ≡ s.epoll_fd)
        × ((close_listen calls epoll s k).0.running ≡ s.running)
  close_listen-Holds before s k h = elim (Bool-cases (is_pos s.listen_fd 0)) [
    | inl e ↦ rw e (h, is_zero s.listen_fd e, refl, refl)
    | inr e ↦ rw e (
      (λ x. omega (arith, h x, c.close_closes k s.listen_fd x, held-one s.listen_fd x e)),
      refl,
      refl,
      refl,
    )
  ]

  close_epoll-Holds :
      (before : ℤ → ℕ) (s : Server) (k : K)
      → Holds before (s, k)
      → Holds before (close_epoll calls epoll s k)
        × ((close_epoll calls epoll s k).0.epoll_fd ≡ pos 0)
        × ((close_epoll calls epoll s k).0.listen_fd ≡ s.listen_fd)
        × ((close_epoll calls epoll s k).0.running ≡ s.running)
  close_epoll-Holds before s k h = elim (Bool-cases (is_pos s.epoll_fd 0)) [
    | inl e ↦ rw e (h, is_zero s.epoll_fd e, refl, refl)
    | inr e ↦ rw e (
      (λ x. omega (arith, h x, c.close_closes k s.epoll_fd x, held-one s.epoll_fd x e)),
      refl,
      refl,
      refl,
    )
  ]

  open_epoll-Holds :
      (before : ℤ → ℕ) (s : Server) (k : K)
      → s.epoll_fd ≡ pos 0
      → Holds before (s, k)
      → Holds before (open_epoll calls epoll s k)
  open_epoll-Holds before s k z h x =
      let fd = (epoll.create k).0 in
      let none : held s.epoll_fd x ≡ 0 = ap (λ l. held l x) z in
      let opened = d.create_opens k x in
      elim (Bool-cases (is_minus_one fd)) [
        | inl e ↦ rw e (
            opened ∙ ap (λ b. count k x + (if b then 0 else one fd x)) e ∙ omega (arith, h x, none))
        | inr e ↦
            let some_fd = not_zero fd (d.create_positive k) in
            rw (e, some_fd)
              (opened
                ∙ ap (λ b. count k x + (if b then 0 else one fd x)) e
                ∙ omega (arith, h x, none))
      ]

  after_monitor-ReadyAt :
      (before : ℤ → ℕ) (s : Server) (m : ℤ × K)
      → Holds before (s, m.1)
      → ReadyAt before (after_monitor calls epoll s m)
  after_monitor-ReadyAt before s (r, k) h = elim (Bool-cases (is_pos r 0)) [
    | inl e ↦ rw e (h, λ f. cc)
    | inr e ↦
        let (s1, k1) = close_listen calls epoll s k in
        let (h1, l1, e1, r1) = close_listen-Holds before s k h in
        let (h2, e2, l2, r2) = close_epoll-Holds before s1 k1 h1 in rw e (h2, λ f. (l2 ∙ l1, e2))
  ]

  after_epoll-ReadyAt :
      (before : ℤ → ℕ) (m : Server × K)
      → Holds before m
      → ReadyAt before (after_epoll calls epoll m)
  after_epoll-ReadyAt before (s, k) h = elim (Bool-cases (is_pos s.epoll_fd 0)) [
    | inl e ↦
        let (h1, l1, e1, r1) = close_listen-Holds before s k h in
        rw e (h1, λ f. (l1, e1 ∙ is_zero s.epoll_fd e))
    | inr e ↦ rw e (
        after_monitor-ReadyAt before s (epoll.monitor k s.epoll_fd s.listen_fd)
          (λ x. d.monitor_keeps k s.epoll_fd s.listen_fd x ∙ h x))
  ]

  either :
      (before : ℤ → ℕ) (b : Bool) (m n : Server × K)
      → (b ≡ true → ReadyAt before m)
      → (b ≡ false → ReadyAt before n)
      → ReadyAt before (if b then m else n)
  either before true m n f g = f refl
  either before false m n f g = g refl

  after_listen-ReadyAt :
      (before : ℤ → ℕ) (m : Server × K)
      → Holds before m
      → m.0.epoll_fd ≡ pos 0
      → ReadyAt before (after_listen calls epoll m)
  after_listen-ReadyAt before (s, k) h z =
      either before (is_pos s.listen_fd 0) (s, k)
        (after_epoll calls epoll (open_epoll calls epoll s k))
        (λ e. (h, λ f. (is_zero s.listen_fd e, z)))
        (λ e.
          after_epoll-ReadyAt before (open_epoll calls epoll s k) (open_epoll-Holds before s k z h))

  start_async-ReadyAt :
      (before : ℤ → ℕ) (s : Server) (k : K)
      → ReadyAt before (s, k)
      → ReadyAt before (start_async calls epoll s k)
  unfolding start_async
  start_async-ReadyAt before s k (h, stopped) =
      let opened = after_listen calls epoll (open_listen calls epoll s k) in
      either before s.running (s, k) (if not s.has_callback then (s, k) else opened)
        (λ e. (h, stopped))
        λ e.
          either before (not s.has_callback) (s, k) opened (λ g. (h, stopped))
            λ g.
              after_listen-ReadyAt before (open_listen calls epoll s k)
                (open_listen-Holds before s k (stopped e).0 h) (stopped e).1

  -- After `StartAsync` of the server with an epoll, what was opened is what a running server holds, and
  -- a server that does not run holds nothing, whichever call failed, when that was so before.
  pub start_async-Ready :
      (before : ℤ → ℕ) (s : Server) (k : K)
      → Ready before (s, k)
      → Ready before (start_async calls epoll s k)
  start_async-Ready before s k r =
      let (holds, stopped) = start_async-ReadyAt before s k (r.holds, r.stopped) in
      record { holds = holds; stopped = stopped }

  basic_start_async-ReadyAt :
      (before : ℤ → ℕ) (s : Server) (k : K)
      → ReadyAt before (s, k)
      → ReadyAt before (basic_start_async calls epoll s k)
  unfolding basic_start_async
  basic_start_async-ReadyAt before s k (h, stopped) =
      let (s1, k1) = open_listen calls epoll s k in
      let opened = after_basic_listen calls epoll (open_listen calls epoll s k) in
      either before s.running (s, k) (if not s.has_callback then (s, k) else opened)
        (λ e. (h, stopped))
        λ e.
          either before (not s.has_callback) (s, k) opened (λ g. (h, stopped))
            λ g.
              let h1 = open_listen-Holds before s k (stopped e).0 h in
              either before (is_pos s1.listen_fd 0) (s1, k1) (record s1 { running = true }, k1)
                (λ z. (h1, λ f. (is_zero s1.listen_fd z, (stopped e).1))) (λ z. (h1, λ f. cc))

  -- The same for the servers without an epoll.
  pub basic_start_async-Ready :
      (before : ℤ → ℕ) (s : Server) (k : K)
      → Ready before (s, k)
      → Ready before (basic_start_async calls epoll s k)
  basic_start_async-Ready before s k r =
      let (holds, stopped) = basic_start_async-ReadyAt before s k (r.holds, r.stopped) in
      record { holds = holds; stopped = stopped }
