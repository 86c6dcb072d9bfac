-- ===== src/Server/Busy.antt =====
-- A run of the loop of minet/src/components/MayhemServer.cpp, for the theorem at a concrete input.
use minet_core.Prelude.{
  ℕ, ◌-◌, List, [], ◌∷◌, none, some, Bool, true, false, not, ◌&&◌, ◌||◌, ltb, ◌==◌, if◌then◌else◌,
  ◌≡◌, ◌≢◌, ◌⊎◌, inl, inr, refl, All, arith,
}
use mathlib.Core.Path.{subst}
use minet_core.Prelude.Int.{ℤ, pos, negsuc}
use minet_core.Prelude.Result.{Result}
use minet_core.Request.{HttpContext, empty_request, empty_response}
use minet_core.Net.{Calls}
use minet_core.Server.{Event, EpollCalls, create}
use minet_core.Sync.Calls.{undefined}
use minet_core.Server.Events.{Connections, Mayhem, same_fd, serve}
use minet_core.Server.Handles.{Watches, Distinct, same_fd_sound, same_fd_refl, serve-ne-undefined}

-- The descriptors that the epoll watches, and the connections that wait to be accepted.
abbrev Busy : Type 0
Busy = (ℤ → Bool) × ℕ

-- A connection is accepted with the descriptor 5.
abbrev busy : Calls Busy
busy = record {
  socket = λ k. (pos 3, k);
  set_reuse = λ k fd. (pos 0, k);
  bind = λ k fd port. (pos 0, k);
  listen = λ k fd n. (pos 0, k);
  get_flags = λ k fd. (pos 0, k);
  set_nonblock = λ k fd flag. (pos 0, k);
  accept = λ k fd. if k.1 == 0 then (negsuc 0, k) else (pos 5, (k.0, k.1 - 1));
  close = λ k fd. (pos 0, ((λ x. k.0 x && not (same_fd x fd)), k.1));
}

-- The listening socket is ready while connections wait, and the descriptor 5 is ready else.
abbrev busy_events : Busy → List Event
busy_events k =
    if k.0 (pos 3) && ltb 0 k.1
    then record { fd = pos 3; readable = true } ∷ []
    else if k.0 (pos 5)
    then record { fd = pos 5; readable = true } ∷ []
    else []

abbrev busy_epoll : EpollCalls Busy
busy_epoll = record {
  create = λ k. (pos 4, k);
  monitor = λ k e fd. (pos 0, ((λ x. k.0 x || same_fd x fd), k.1));
  unmonitor = λ k e fd. (pos 0, ((λ x. k.0 x && not (same_fd x fd)), k.1));
  wait = λ k e n. (some (busy_events k), k);
}

-- Every request is complete at the first read, and the pool refuses it.
abbrev refused : Connections Busy HttpContext
refused = record {
  connect = λ k fd. record { request = empty_request 5; response = empty_response 5 };
  parse = λ k h. (Result.returned (pos 1, h), k);
  context = λ h. h;
  set_context = λ h c. c;
  submit = λ k c. (false, k);
  interrupted = λ k. (false, k);
}

or-cases : (a : Bool) (x fd : ℤ) → (a || same_fd x fd) ≡ true → (a ≡ true) ⊎ (x ≡ fd)
or-cases true x fd e = inl refl
or-cases false x fd e = inr (same_fd_sound x fd e)

and-first : (a b : Bool) → (a && b) ≡ true → a ≡ true
and-first true b e = refl
and-first false b e = e

-- A property of a conditional.
if-cases {ℓ} :
    {A : Type ℓ} (P : A → Type 0) (b : Bool) (x y : A)
    → (b ≡ true → P x)
    → (b ≡ false → P y)
    → P (if b then x else y)
if-cases P true x y f g = f refl
if-cases P false x y f g = g refl

-- The events are of watched descriptors, all different.
abbrev Fair : Busy → List Event → Type 0
Fair k es = All (λ (e : Event). k.0 e.fd ≡ true) es × Distinct es

busy_events-Fair : (k : Busy) → Fair k (busy_events k)
busy_events-Fair k =
    if-cases (Fair k) (k.0 (pos 3) && ltb 0 k.1) _ _
      (λ e. ((and-first (k.0 (pos 3)) _ e, tt), (tt, tt)))
      λ off. if-cases (Fair k) (k.0 (pos 5)) _ _ (λ e. ((e, tt), (tt, tt))) λ off. (tt, tt)

busy-Watches : Watches busy busy_epoll refused (λ k. k.0)
busy-Watches = record {
  close = λ k fd x e. (
    and-first (k.0 x) _ e,
    λ at. let same = subst (λ y. same_fd x y ≡ true) at (same_fd_refl x) in ground arith,
  );
  accept = λ k fd x e.
      if-cases (λ (r : ℤ × Busy). r.1.0 x ≡ true → k.0 x ≡ true) (k.1 == 0) (negsuc 0, k)
        (pos 5, (k.0, k.1 - 1)) (λ t w. w) (λ t w. w) e;
  monitor = λ k ep fd x e. or-cases (k.0 x) x fd e;
  unmonitor = λ k ep fd x e. and-first (k.0 x) _ e;
  parse = λ k h x e. e;
  submit = λ k c x e. e;
  interrupted = λ k x e. e;
  wait = λ k ep n x e. e;
  events =
      λ k ep n es e. let same : busy_events k ≡ es = cc in subst (Fair k) same (busy_events-Fair k);
}

abbrev one_waiting : Busy
one_waiting = ((λ x. same_fd x (pos 3)), 1)

abbrev started : Mayhem HttpContext
started = record {
  server = record (create 80 true) { listen_fd = pos 3; epoll_fd = pos 4; running = true };
  handles = λ i. none;
}

serve-ne-undefined_example : serve busy busy_epoll refused 4 4 started one_waiting ≢ undefined
serve-ne-undefined_example =
    serve-ne-undefined busy busy_epoll refused (λ k. k.0) busy-Watches 4 4 started one_waiting
      (λ x w. same_fd_sound x (pos 3) w)
