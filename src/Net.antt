-- ===== src/Net.antt =====
-- Sockets: minet/src/utils/Network.cpp, over the system calls that it uses.
pub mod Opens
use minet_core.Prelude.{ℕ, Bool, true, false, if◌then◌else◌}
use minet_core.Prelude.Int.{ℤ, pos, is_negative, is_positive}

-- The system calls on the state of the kernel, each with the number it returns. `set_reuse` is `setsockopt`
-- with SO_REUSEADDR, `get_flags` and `set_nonblock` are the two uses of `fcntl`, and `accept` leaves the address out.
pub record Calls (K : Type 0) : Type 0 where
  pub socket : K → ℤ × K
  pub set_reuse : K → ℤ → ℤ × K
  pub bind : K → ℤ → ℕ → ℤ × K
  pub listen : K → ℤ → ℕ → ℤ × K
  pub get_flags : K → ℤ → ℤ × K
  pub set_nonblock : K → ℤ → ℤ → ℤ × K
  pub accept : K → ℤ → ℤ × K
  pub close : K → ℤ → ℤ × K

module _ {K : Type 0} (calls : Calls K) where
  -- `CloseSocket`
  abbrev pub close_socket : K → ℤ → ℤ × K
  close_socket k fd = calls.close k fd

  -- `MINET_TRY_WITH_ACTION(..., close(fd))`
  abbrev pub try_or_close : ℤ → ℤ × K → (K → ℤ × K) → ℤ × K
  try_or_close fd (r, k) more =
      if is_negative r then (let (c, k') = calls.close k fd in (r, k')) else more k

  -- `MakeNonBlockingSocket`
  unfoldable pub make_non_blocking_socket : K → ℤ → ℤ × K
  make_non_blocking_socket k fd =
      let (flag, k1) = calls.get_flags k fd in
      if is_negative flag
      then (flag, k1)
      else (let (r, k2) = calls.set_nonblock k1 fd flag in
          ((if is_negative r then r else pos 0), k2))

  -- `OpenSocket`, with a socket
  abbrev pub open_at : ℕ → Bool → ℤ × K → ℤ × K
  open_at port block (fd, k) =
      if is_negative fd
      then (fd, k)
      else try_or_close fd (calls.set_reuse k fd) λ k. try_or_close fd (calls.bind k fd port) λ k.
        try_or_close fd (calls.listen k fd 2048) λ k.
          if block then (fd, k) else (try_or_close fd (make_non_blocking_socket k fd) λ k. (fd, k))

  -- `OpenSocket`
  unfoldable pub open_socket : K → ℕ → Bool → ℤ × K
  open_socket k port block = open_at port block (calls.socket k)

  -- `AcceptSocket`
  abbrev pub accept_socket : K → ℤ → Bool × ℤ × K
  accept_socket k fd = let (r, k') = calls.accept k fd in (is_positive r, r, k')
