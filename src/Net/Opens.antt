-- ===== src/Net/Opens.antt =====
-- What is open after a call: minet/src/utils/Network.cpp.
use minet_core.Prelude.{
  ℕ, ◌+◌, ◌-◌, Bool, true, ◌≡◌, ◌≢◌, inl, inr, sym, ap, ◌∙◌, arith, if◌then◌else◌, Bool-cases, ◌==◌,
}
use minet_core.Prelude.Int.{ℤ, pos, negsuc, is_negative}
use minet_core.Net.{Calls, try_or_close, make_non_blocking_socket, open_at, open_socket}

-- 1 for a descriptor and itself.
abbrev pub one : ℤ → ℤ → ℕ
one (pos n) (pos m) = if n == m then 1 else 0
one (negsuc n) (negsuc m) = if n == m then 1 else 0
one x y = 0

-- 1 for the descriptor that a call returned, unless it failed.
abbrev pub new : ℤ → ℤ → ℕ
new fd x = if is_negative fd then 0 else one fd x

-- What is documented of the system calls, where `count k x` is how often the descriptor `x` is open, 0 or 1. The
-- standard streams are open, so no new descriptor is 0.
pub record Counts {K : Type 0} (calls : Calls K) (count : K → ℤ → ℕ) : Type 0 where
  pub socket_opens :
      (k : K) (x : ℤ) → count (calls.socket k).1 x ≡ count k x + new (calls.socket k).0 x
  pub socket_positive : (k : K) → (calls.socket k).0 ≢ pos 0
  pub set_reuse_keeps : (k : K) (fd x : ℤ) → count (calls.set_reuse k fd).1 x ≡ count k x
  pub bind_keeps :
      (k : K) (fd : ℤ) (port : ℕ) (x : ℤ) → count (calls.bind k fd port).1 x ≡ count k x
  pub listen_keeps : (k : K) (fd : ℤ) (n : ℕ) (x : ℤ) → count (calls.listen k fd n).1 x ≡ count k x
  pub get_flags_keeps : (k : K) (fd x : ℤ) → count (calls.get_flags k fd).1 x ≡ count k x
  pub set_nonblock_keeps :
      (k : K) (fd flag x : ℤ) → count (calls.set_nonblock k fd flag).1 x ≡ count k x
  pub close_closes : (k : K) (fd x : ℤ) → count (calls.close k fd).1 x ≡ count k x - one fd x

module _ {K : Type 0} (calls : Calls K) (count : K → ℤ → ℕ) (c : Counts calls count) where
  -- The descriptors after a call that may have opened `fd`, where `before` counts those from before.
  abbrev Opens : (ℤ → ℕ) → ℤ × K → Type 0
  Opens before (r, k) = (x : ℤ) → count k x ≡ before x + new r x

  -- A call that fails has the new socket closed.
  try-Opens :
      (before : ℤ → ℕ) (fd : ℤ) (m : ℤ × K) (more : K → ℤ × K)
      → ((x : ℤ) → count m.1 x ≡ before x + one fd x)
      → ((k : K) → ((x : ℤ) → count k x ≡ before x + one fd x) → Opens before (more k))
      → Opens before (try_or_close calls fd m more)
  try-Opens before fd (r, k) more h g = elim (Bool-cases (is_negative r)) [
    | inl e ↦
        rw e (λ x. omega (arith, h x, c.close_closes k fd x, ap (λ b. if b then 0 else one r x) e))
    | inr e ↦ rw e (g k h)
  ]

  make_non_blocking_socket_keeps :
      (k : K) (fd x : ℤ) → count (make_non_blocking_socket calls k fd).1 x ≡ count k x
  unfolding make_non_blocking_socket
  make_non_blocking_socket_keeps k fd x = elim (Bool-cases (is_negative (calls.get_flags k fd).0)) [
    | inl e ↦ rw e (c.get_flags_keeps k fd x)
    | inr e ↦ rw e (
        c.set_nonblock_keeps (calls.get_flags k fd).1 fd (calls.get_flags k fd).0 x
        ∙ c.get_flags_keeps k fd x)
  ]

  open_at-Opens :
      (before : ℤ → ℕ) (port : ℕ) (block : Bool) (m : ℤ × K)
      → Opens before m
      → Opens before (open_at calls port block m)
  open_at-Opens before port block (fd, k) h = elim (Bool-cases (is_negative fd)) [
    | inl e ↦ rw e h
    | inr e ↦
        let opened : (x : ℤ) → count k x ≡ before x + one fd x =
          λ x. h x ∙ ap (λ b. before x + (if b then 0 else one fd x)) e in
        let result : (k : K) → ((x : ℤ) → count k x ≡ before x + one fd x) → Opens before (fd, k) =
          λ k g x. g x ∙ ap (λ b. before x + (if b then 0 else one fd x)) (sym e) in
        let unblocked : K → ℤ × K = λ k.
          if block
          then (fd, k)
          else (try_or_close calls fd (make_non_blocking_socket calls k fd) λ k. (fd, k)) in
        let listening : K → ℤ × K = λ k. try_or_close calls fd (calls.listen k fd 2048) unblocked in
        let bound : K → ℤ × K = λ k. try_or_close calls fd (calls.bind k fd port) listening in
        let unblocked-Opens : (k : K)
            → ((x : ℤ) → count k x ≡ before x + one fd x)
            → Opens before (unblocked k) =
          λ k g. elim (Bool-cases block) [
            | inl b ↦ rw b (result k g)
            | inr b ↦ rw b (
                try-Opens before fd (make_non_blocking_socket calls k fd) (λ k. (fd, k))
                  (λ x. make_non_blocking_socket_keeps k fd x ∙ g x) result)
          ] in
        rw e (
          try-Opens before fd (calls.set_reuse k fd) bound
            (λ x. c.set_reuse_keeps k fd x ∙ opened x)
            λ k g.
              try-Opens before fd (calls.bind k fd port) listening
                (λ x. c.bind_keeps k fd port x ∙ g x)
                λ k g.
                  try-Opens before fd (calls.listen k fd 2048) unblocked
                    (λ x. c.listen_keeps k fd 2048 x ∙ g x) unblocked-Opens)
  ]

  -- `OpenSocket` opens the descriptor that it returns, and when it fails, nothing: what it opened is closed.
  pub open_socket-opens :
      (k : K) (port : ℕ) (block : Bool) (x : ℤ)
      → count (open_socket calls k port block).1 x
        ≡ count k x + new (open_socket calls k port block).0 x
  unfolding open_socket
  open_socket-opens k port block x =
      open_at-Opens (count k) port block (calls.socket k) (c.socket_opens k) x

  -- No descriptor that a call returns is 0.
  negative-ne : (r : ℤ) → is_negative r ≡ true → r ≢ pos 0
  negative-ne (pos n) e g = cc
  negative-ne (negsuc n) e g = cc

  try-ne :
      (fd : ℤ) (m : ℤ × K) (more : K → ℤ × K)
      → ((k : K) → (more k).0 ≢ pos 0)
      → (try_or_close calls fd m more).0 ≢ pos 0
  try-ne fd (r, k) more h = elim (Bool-cases (is_negative r)) [
    | inl e ↦ rw e (negative-ne r e)
    | inr e ↦ rw e (h k)
  ]

  open_at-ne :
      (port : ℕ) (block : Bool) (m : ℤ × K) → m.0 ≢ pos 0 → (open_at calls port block m).0 ≢ pos 0
  open_at-ne port block (fd, k) h = elim (Bool-cases (is_negative fd)) [
    | inl e ↦ rw e h
    | inr e ↦
        let unblocked : K → ℤ × K = λ k.
          if block
          then (fd, k)
          else (try_or_close calls fd (make_non_blocking_socket calls k fd) λ k. (fd, k)) in
        let listening : K → ℤ × K = λ k. try_or_close calls fd (calls.listen k fd 2048) unblocked in
        let bound : K → ℤ × K = λ k. try_or_close calls fd (calls.bind k fd port) listening in
        let unblocked-ne : (k : K) → (unblocked k).0 ≢ pos 0 = λ k. elim (Bool-cases block) [
          | inl b ↦ rw b h
          | inr b ↦ rw b (try-ne fd (make_non_blocking_socket calls k fd) (λ k. (fd, k)) (λ k. h))
        ] in
        rw e (
          try-ne fd (calls.set_reuse k fd) bound λ k.
            try-ne fd (calls.bind k fd port) listening
              λ k. try-ne fd (calls.listen k fd 2048) unblocked unblocked-ne)
  ]

  pub open_socket-ne :
      (k : K) (port : ℕ) (block : Bool) → (open_socket calls k port block).0 ≢ pos 0
  unfolding open_socket
  open_socket-ne k port block = open_at-ne port block (calls.socket k) (c.socket_positive k)
