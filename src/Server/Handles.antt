-- ===== src/Server/Handles.antt =====
-- Every descriptor that the epoll watches has a handle: minet/src/components/MayhemServer.cpp.
use minet_core.Prelude.{
  ℕ, zero, suc, List, [], ◌∷◌, Option, none, some, Bool, true, false, not, ◌&&◌, if◌then◌else◌, ◌≡◌,
  ◌≢◌, ◌⊎◌, inl, inr, refl, sym, ap, ◌∙◌, arith, All, codes, ==_iff,
}
use mathlib.Core.Path.{subst}
use minet_core.Prelude.Int.{ℤ, pos, negsuc, is_negative, is_pos, is_positive}
use minet_core.Prelude.Result.{Result}
use minet_core.Request.{HttpContext}
use minet_core.Net.{Calls, close_socket}
use minet_core.Server.{Event, EpollCalls}
use minet_core.Sync.Calls.{Outcome, returned, thrown, undefined, out_of_fuel, ◌>>=◌, lift}
use minet_core.Server.Events.{
  same_fd, too_high, Connections, Mayhem, handle_at, put_handle, decorate, monitor_or_close,
  add_handle, accept_all, drop_handle, submit_context, after_parse, read_handle, handle_event,
  handle_events, after_wait, serve,
}

-- A result that is defined, and has a property when the call returns.
abbrev Safe {ℓ} : {A : Type ℓ} → (A → Type 0) → Outcome A → Type 0
Safe P (returned a) = P a
Safe P (thrown e) = Unit
Safe P undefined = ⊥
Safe P out_of_fuel = Unit

Safe-bind {ℓ} :
    {A B : Type ℓ} (P : A → Type 0) (Q : B → Type 0) (o : Outcome A) (f : A → Outcome B)
    → Safe P o
    → ((a : A) → P a → Safe Q (f a))
    → Safe Q (o >>= f)
Safe-bind P Q (returned a) f h g = g a h
Safe-bind P Q (thrown e) f h g = tt
Safe-bind P Q undefined f h g = absurd h
Safe-bind P Q out_of_fuel f h g = tt

lift-Safe {ℓ} : {A : Type ℓ} (r : Result A) → Safe (λ (x : A). Unit) (lift r)
lift-Safe (Result.returned a) = tt
lift-Safe (Result.thrown e) = tt

Safe-ne {ℓ} : {A : Type ℓ} (P : A → Type 0) (o : Outcome A) → Safe P o → o ≢ undefined
Safe-ne P (returned a) h e = cc
Safe-ne P (thrown x) h e = cc
Safe-ne P undefined h e = absurd h
Safe-ne P out_of_fuel h e = cc

Safe-if {ℓ} :
    {A : Type ℓ} (P : A → Type 0) (b : Bool) (m n : Outcome A)
    → (b ≡ true → Safe P m)
    → (b ≡ false → Safe P n)
    → Safe P (if b then m else n)
Safe-if P true m n f g = f refl
Safe-if P false m n f g = g refl

pub same_fd_sound : (a b : ℤ) → same_fd a b ≡ true → a ≡ b
same_fd_sound (pos n) (pos m) h = ap pos ((==_iff n m).0 h)
same_fd_sound (negsuc n) (negsuc m) h = ap negsuc ((==_iff n m).0 h)
same_fd_sound (pos n) (negsuc m) h = cc
same_fd_sound (negsuc n) (pos m) h = cc

pub same_fd_refl : (a : ℤ) → same_fd a a ≡ true
same_fd_refl (pos n) = (==_iff n n).1 refl
same_fd_refl (negsuc n) = (==_iff n n).1 refl

module _ {H : Type 0} where
  -- A descriptor has a handle.
  abbrev Has : (ℕ → Option H) → ℤ → Type 0
  Has handles x = handle_at handles x ≢ none

  Has-put_some :
      (handles : ℕ → Option H) (fd x : ℤ) (h : H)
      → Has handles x
      → Has (put_handle handles fd (some h)) x
  Has-put_some handles (pos m) (pos n) h s = ground arith
  Has-put_some handles (negsuc m) (pos n) h s = s
  Has-put_some handles fd (negsuc n) h s = s

  Has-put_same :
      (handles : ℕ → Option H) (x : ℤ) (h : H)
      → is_positive x ≡ true
      → too_high x ≡ false
      → Has (put_handle handles x (some h)) x
  Has-put_same handles (pos n) h p low = ground arith
  Has-put_same handles (negsuc n) h p low = cc

  Has-put_other :
      (handles : ℕ → Option H) (fd x : ℤ) (h : Option H)
      → x ≢ fd
      → Has handles x
      → Has (put_handle handles fd h) x
  Has-put_other handles (pos m) (pos n) h ne s = ground arith
  Has-put_other handles (negsuc m) (pos n) h ne s = s
  Has-put_other handles fd (negsuc n) h ne s = s

-- No two events are of the same descriptor.
abbrev pub Distinct : List Event → Type 0
Distinct [] = Unit
Distinct (e ∷ es) = All (λ (x : Event). x.fd ≢ e.fd) es × Distinct es

module _ {K H : Type 0} (calls : Calls K) (epoll : EpollCalls K) (conns : Connections K H) where
  -- What the kernel does with the descriptors that the epoll watches: a descriptor that is closed is not
  -- watched, only `monitor` adds one, and the events are of different descriptors that were watched.
  -- Other threads may close descriptors at any time.
  pub record Watches (watched : K → ℤ → Bool) : Type 0 where
    pub close :
        (k : K) (fd x : ℤ) → watched (calls.close k fd).1 x ≡ true → (watched k x ≡ true) × (x ≢ fd)
    pub accept : (k : K) (fd x : ℤ) → watched (calls.accept k fd).1 x ≡ true → watched k x ≡ true
    pub monitor :
        (k : K) (ep fd x : ℤ)
        → watched (epoll.monitor k ep fd).1 x ≡ true
        → (watched k x ≡ true) ⊎ (x ≡ fd)
    pub unmonitor :
        (k : K) (ep fd x : ℤ) → watched (epoll.unmonitor k ep fd).1 x ≡ true → watched k x ≡ true
    pub parse : (k : K) (h : H) (x : ℤ) → watched (conns.parse k h).1 x ≡ true → watched k x ≡ true
    pub submit :
        (k : K) (c : HttpContext) (x : ℤ)
        → watched (conns.submit k c).1 x ≡ true
        → watched k x ≡ true
    pub interrupted :
        (k : K) (x : ℤ) → watched (conns.interrupted k).1 x ≡ true → watched k x ≡ true
    pub wait :
        (k : K) (ep : ℤ) (n : ℕ) (x : ℤ)
        → watched (epoll.wait k ep n).1 x ≡ true
        → watched k x ≡ true
    pub events :
        (k : K) (ep : ℤ) (n : ℕ) (es : List Event)
        → (epoll.wait k ep n).0 ≡ some es
        → All (λ (e : Event). watched k e.fd ≡ true) es × Distinct es

  module _ (watched : K → ℤ → Bool) (laws : Watches watched) (listen : ℤ) where
    -- What is watched is the listening socket or has a handle.
    abbrev Known : Mayhem H × K → Type 0
    Known (m, k) =
        (m.server.listen_fd ≡ listen)
        × ((x : ℤ) → watched k x ≡ true → (x ≡ listen) ⊎ Has m.handles x)

    -- A state after another, where the descriptors of `S` kept their handles.
    abbrev Follows : (ℤ → Type 0) → Mayhem H → Mayhem H × K → Type 0
    Follows S m t = Known t × ((x : ℤ) → S x → Has m.handles x → Has t.0.handles x)

    Known-fewer :
        (m : Mayhem H) (k k' : K)
        → Known (m, k)
        → ((x : ℤ) → watched k' x ≡ true → watched k x ≡ true)
        → Known (m, k')
    Known-fewer m k k' (same, known) f = (same, λ x w. known x (f x w))

    watched-if :
        (b : Bool) (k1 k2 : K) (x : ℤ)
        → watched (if b then k1 else k2) x ≡ true
        → (watched k1 x ≡ true) ⊎ (watched k2 x ≡ true)
    watched-if true k1 k2 x w = inl w
    watched-if false k1 k2 x w = inr w

    monitor_or_close-watched :
        (m : Mayhem H) (k : K) (fd x : ℤ)
        → watched (monitor_or_close calls epoll conns m k fd) x ≡ true
        → (watched k x ≡ true) ⊎ (x ≡ fd)
    monitor_or_close-watched m k fd x w =
        let r = epoll.monitor k m.server.epoll_fd fd in
        elim (watched-if (is_pos r.0 0) r.1 (close_socket calls r.1 fd).1 x w) [
          | inl w' ↦ laws.monitor k _ fd x w'
          | inr w' ↦ laws.monitor k _ fd x (laws.close r.1 fd x w').0
        ]

    Follows-trans :
        {S : ℤ → Type 0} (m : Mayhem H) (s t : Mayhem H × K)
        → Follows S m s
        → (Known s → Follows S s.0 t)
        → Follows S m t
    Follows-trans m s t f g = ((g f.0).0, λ x sx h. (g f.0).1 x sx (f.1 x sx h))

    Follows-if :
        {S : ℤ → Type 0} (b : Bool) (m : Mayhem H) (s t : Mayhem H × K)
        → Follows S m s
        → Follows S m t
        → Follows S m (if b then s else t)
    Follows-if true m s t f g = f
    Follows-if false m s t f g = g

    Follows-put_some :
        {S : ℤ → Type 0} (m : Mayhem H) (k : K) (fd : ℤ) (h : H)
        → Known (m, k)
        → Follows S m (record m { handles = put_handle m.handles fd (some h) }, k)
    Follows-put_some m k fd h (same, known) = (
      (
        same,
        λ x w. elim (known x w) [ inl e ↦ inl e | inr s ↦ inr (Has-put_some m.handles fd x h s) ],
      ),
      λ x sx s. Has-put_some m.handles fd x h s,
    )

    add_handle-Follows :
        {S : ℤ → Type 0} (m : Mayhem H) (k : K) (fd : ℤ)
        → Known (m, k)
        → is_positive fd ≡ true
        → too_high fd ≡ false
        → Follows S m (add_handle calls epoll conns m k fd)
    add_handle-Follows m k fd (same, known) p low = (
      (
        same,
        λ x w. elim (monitor_or_close-watched m k fd x w) [
          | inr e ↦ inr (subst (Has _) (sym e) (Has-put_same m.handles fd _ p low))
          | inl w' ↦ elim (known x w') [
            | inl e ↦ inl e
            | inr s ↦ inr (Has-put_some m.handles fd x _ s)
          ]
        ],
      ),
      λ x u s. Has-put_some m.handles fd x _ s,
    )

    drop_handle-Follows :
        (m : Mayhem H) (k : K) (fd : ℤ)
        → Known (m, k)
        → Follows (λ x. x ≢ fd) m (drop_handle calls epoll conns m k fd)
    drop_handle-Follows m k fd (same, known) = (
      (
        same,
        λ x w.
            let c = laws.close k fd x w in
            elim (known x c.0) [
              | inl e ↦ inl e
              | inr s ↦ inr (Has-put_other m.handles fd x none c.1 s)
            ],
      ),
      λ x ne s. Has-put_other m.handles fd x none ne s,
    )

    Safe-Follows-trans :
        {S : ℤ → Type 0} (m : Mayhem H) (s : Mayhem H × K) (o : Outcome (Mayhem H × K))
        → Follows S m s
        → (Known s → Safe (Follows S s.0) o)
        → Safe (Follows S m) o
    Safe-Follows-trans m s (returned t) f g = Follows-trans m s t f g
    Safe-Follows-trans m s (thrown e) f g = tt
    Safe-Follows-trans m s undefined f g = g f.0
    Safe-Follows-trans m s out_of_fuel f g = tt

    accept_all-Safe :
        (S : ℤ → Type 0) (fuel : ℕ) (m : Mayhem H) (k : K)
        → Known (m, k)
        → Safe (Follows S m) (accept_all calls epoll conns fuel m k)
    unfolding accept_all
    accept_all-Safe S zero m k h = tt
    accept_all-Safe S (suc fuel) m k h =
        let r = calls.accept k m.server.listen_fd in
        let h' = Known-fewer m k r.1 h (laws.accept k m.server.listen_fd) in
        Safe-if _ (not (is_positive r.0)) _ _ (λ off. (h', λ x u s. s))
          λ on.
            Safe-if _ (too_high r.0) _ _
              (λ high. (Known-fewer m r.1 _ h' (λ x w. (laws.close r.1 r.0 x w).0), λ x u s. s))
              λ low.
                let s = add_handle calls epoll conns m r.1 r.0 in
                Safe-Follows-trans m s _ (add_handle-Follows m r.1 r.0 h' (ground arith) low)
                  (accept_all-Safe S fuel s.0 s.1)

    submit_context-Follows :
        (m : Mayhem H) (k : K) (fd : ℤ) (h : H)
        → Known (m, k)
        → Follows (λ x. x ≢ fd) m (submit_context calls epoll conns m k fd h)
    submit_context-Follows m k fd h known =
        let k1 = (epoll.unmonitor k m.server.epoll_fd fd).1 in
        let c = decorate (codes "Mayhem") (conns.context h) in
        let m' : Mayhem H = record m {
          handles = put_handle m.handles fd (some (conns.set_context h c));
        } in
        let s = conns.submit k1 c in
        let known' =
          Known-fewer m k1 s.1 (Known-fewer m k k1 known (laws.unmonitor k _ fd))
            (laws.submit k1 c) in
        let f = Follows-put_some m s.1 fd _ known' in
        let last = drop_handle calls epoll conns m' s.1 fd in
        Follows-if s.0 m (m', s.1) last f
          (Follows-trans m (m', s.1) last f (drop_handle-Follows m' s.1 fd))

    after_parse-Follows :
        (m : Mayhem H) (k : K) (fd : ℤ) (x : ℤ × H)
        → Known (m, k)
        → Follows (λ x. x ≢ fd) m (after_parse calls epoll conns m k fd x)
    after_parse-Follows m k fd (r, h) known =
        let m' : Mayhem H = record m { handles = put_handle m.handles fd (some h) } in
        let sent = submit_context calls epoll conns m' k fd h in
        let dropped = drop_handle calls epoll conns m' k fd in
        let last = if is_negative r then dropped else (m', k) in
        Follows-trans m (m', k) (if is_pos r 1 then sent else last)
          (Follows-put_some m k fd h known)
          λ known'. Follows-if (is_pos r 1) m' sent last (submit_context-Follows m' k fd h known') (
            Follows-if (is_negative r) m' dropped (m', k) (drop_handle-Follows m' k fd known')
              (known', λ x sx s. s))

    read_handle-Safe :
        (m : Mayhem H) (k : K) (fd : ℤ) (o : Option H)
        → Known (m, k)
        → o ≢ none
        → Safe (Follows (λ x. x ≢ fd) m) (read_handle calls epoll conns m k fd o)
    read_handle-Safe m k fd none known s = s refl
    read_handle-Safe m k fd (some h) known s =
        let r = conns.parse k h in
        Safe-bind (λ x. Unit) _ (lift r.0) _ (lift-Safe r.0)
          λ x u. after_parse-Follows m r.1 fd x (Known-fewer m k r.1 known (laws.parse k h))

    -- The socket of an event is the listening one, or has a handle.
    abbrev Expected : Mayhem H → Event → Type 0
    Expected m e = (e.fd ≡ listen) ⊎ Has m.handles e.fd

    listen-same :
        (fd : ℤ) (m : Mayhem H)
        → fd ≡ listen
        → m.server.listen_fd ≡ listen
        → same_fd fd m.server.listen_fd ≢ false
    listen-same fd m at same differ =
        let yes = subst (λ x. same_fd fd x ≡ true) (at ∙ sym same) (same_fd_refl fd) in cc

    handle_event-Safe :
        (fuel : ℕ) (e : Event) (m : Mayhem H) (k : K)
        → Known (m, k)
        → Expected m e
        → Safe (Follows (λ x. x ≢ e.fd) m) (handle_event calls epoll conns fuel e (m, k))
    unfolding handle_event
    handle_event-Safe fuel e m k known expected =
        Safe-if _ (same_fd e.fd m.server.listen_fd) _ _ (λ on. accept_all-Safe _ fuel m k known)
          λ off.
            Safe-if _ e.readable _ _
              (λ on.
                read_handle-Safe m k e.fd (handle_at m.handles e.fd) known (elim expected [
                  | inl at ↦ absurd (listen-same e.fd m at known.0 off)
                  | inr s ↦ s
                ]))
              λ off. (known, λ x sx s. s)

    -- The states in which the events can be handled.
    abbrev Ready : List Event → Mayhem H × K → Type 0
    Ready es t = Known t × All (Expected t.0) es

    expect-later :
        (m m' : Mayhem H) (e : Event) (es : List Event)
        → ((x : ℤ) → x ≢ e.fd → Has m.handles x → Has m'.handles x)
        → All (λ (x : Event). x.fd ≢ e.fd) es
        → All (Expected m) es
        → All (Expected m') es
    expect-later m m' e [] keep others h = tt
    expect-later m m' e (x ∷ xs) keep (ne, others) (h, hs) = (
      (elim h [ inl at ↦ inl at | inr s ↦ inr (keep x.fd ne s) ]),
      expect-later m m' e xs keep others hs,
    )

    handle_events-Safe :
        (fuel : ℕ) (es : List Event) (t : Mayhem H × K)
        → Distinct es
        → Ready es t
        → Safe Known (handle_events calls epoll conns fuel es t)
    unfolding handle_events
    handle_events-Safe fuel [] t d ready = ready.0
    handle_events-Safe fuel (e ∷ es) (m, k) (others, d) (known, (first, rest)) =
        Safe-bind (Follows (λ x. x ≢ e.fd) m) Known _ _ (handle_event-Safe fuel e m k known first)
          λ t f. handle_events-Safe fuel es t d (f.0, expect-later m t.0 e es f.1 others rest)

    watched-Expected :
        (m : Mayhem H) (k : K) (es : List Event)
        → Known (m, k)
        → All (λ (e : Event). watched k e.fd ≡ true) es
        → All (Expected m) es
    watched-Expected m k [] known h = tt
    watched-Expected m k (e ∷ es) known (w, h) = (known.1 e.fd w, watched-Expected m k es known h)

    after_wait-Safe :
        (fuel : ℕ) (m : Mayhem H) (k : K) (o : Option (List Event))
        → Known (m, k)
        → ((es : List Event) → o ≡ some es → All (Expected m) es × Distinct es)
        → Safe Known (after_wait calls epoll conns fuel m (o, k))
    after_wait-Safe fuel m k none known f = known
    after_wait-Safe fuel m k (some es) known f =
        let g = f es refl in handle_events-Safe fuel es (m, k) g.1 (known, g.0)

    serve-Safe :
        (rounds fuel : ℕ) (m : Mayhem H) (k : K)
        → Known (m, k)
        → Safe (λ t. Unit) (serve calls epoll conns rounds fuel m k)
    unfolding serve
    serve-Safe zero fuel m k known = tt
    serve-Safe (suc rounds) fuel m k known =
        let k1 = (conns.interrupted k).1 in
        let ep = m.server.epoll_fd in
        let k2 = (epoll.wait k1 ep 64).1 in
        let known1 = Known-fewer m k k1 known (laws.interrupted k) in
        let waited =
          after_wait-Safe fuel m k2 _ (Known-fewer m k1 k2 known1 (laws.wait k1 ep 64)) λ es e.
            let g = laws.events k1 ep 64 es e in (watched-Expected m k1 es known1 g.0, g.1) in
        Safe-if _ (m.server.running && not (conns.interrupted k).0) _ _
          (λ on. Safe-bind Known _ _ _ waited λ t. serve-Safe rounds fuel t.0 t.1) λ off. tt

  -- When the epoll watches the listening socket alone at the start, the loop never takes the handle of
  -- a descriptor that has none, however many rounds it goes and whatever the kernel, the connections and
  -- the thread pool answer, for a kernel with the laws of `Watches`.
  pub serve-ne-undefined :
      (watched : K → ℤ → Bool)
      → Watches watched
      → (rounds fuel : ℕ) (m : Mayhem H) (k : K)
      → ((x : ℤ) → watched k x ≡ true → x ≡ m.server.listen_fd)
      → serve calls epoll conns rounds fuel m k ≢ undefined
  serve-ne-undefined watched laws rounds fuel m k start =
      Safe-ne _ _
        (serve-Safe watched laws m.server.listen_fd rounds fuel m k (refl, λ x w. inl (start x w)))
