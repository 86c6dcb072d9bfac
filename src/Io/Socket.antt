-- ===== src/Io/Socket.antt =====
-- The socket stream: `SocketStream` of minet/src/io/Stream.cpp. `recv`, `send` and `close` are the
-- operating system's.
pub mod Closed
use Prim.Native.Nat.{ℕ, ◌≤◌}
use minet_core.Prelude.{
  Bool, true, false, not, ◌≡◌, refl, arith, Bytes, length, if◌then◌else◌, Bool-cases, inl, inr,
}
use minet_core.Prelude.Int.{ℤ, pos, is_positive}
use minet_core.Io.Stream.{ReadResult, received, Stream}
use minet_core.Io.Status

-- The values of `errno` that the code tells apart.
pub data Errno : Type 0 where
  eagain ewouldblock other : Errno

-- What a system call gives; -1 comes with `errno`.
pub data SystemResult (A : Type 0) : Type 0 where
  done : A → SystemResult A
  failed : Errno → SystemResult A

-- The system calls on the state `K` of the operating system: `recv` and `send` of a socket, and
-- `close`. `recv` gives at most as many bytes as it was asked for.
pub record System (K : Type 0) : Type 0 where
  pub recv : K → ℤ → ℕ → SystemResult Bytes × K
  pub send : K → ℤ → Bytes → SystemResult ℕ × K
  pub close_fd : K → ℤ → ℤ × K
  pub recv_within :
      (k : K) (fd : ℤ) (n : ℕ) (bs : Bytes) → (recv k fd n).0 ≡ done bs → length bs ≤ n

-- `errno == EAGAIN || errno == EWOULDBLOCK`
abbrev would_block : Errno → Bool
would_block eagain = true
would_block ewouldblock = true
would_block other = false

-- A `SocketStream`, with the operating system that it works on.
pub record SocketStream (K : Type 0) : Type 0 where
  pub fd : ℤ
  pub kernel : K

module _ {K : Type 0} (sys : System K) where
  -- `IsReadable` and `IsWritable`
  abbrev pub is_open : SocketStream K → Bool
  is_open s = is_positive s.fd

  abbrev read_result : SystemResult Bytes → ReadResult
  read_result (done bs) = received bs
  read_result (failed e) = if would_block e then ReadResult.again else ReadResult.error

  abbrev write_result : SystemResult ℕ → ℤ
  write_result (done n) = pos n
  write_result (failed e) = if would_block e then Status.again else Status.error

  unfoldable pub read : SocketStream K → ℕ → ReadResult × SocketStream K
  read s n =
      if not (is_open s)
      then (ReadResult.error, s)
      else (let (r, k) = sys.recv s.kernel s.fd n in (read_result r, record s { kernel = k }))

  unfoldable pub write : SocketStream K → Bytes → ℤ × SocketStream K
  write s bs =
      if not (is_open s)
      then (Status.error, s)
      else (let (r, k) = sys.send s.kernel s.fd bs in (write_result r, record s { kernel = k }))

  -- A second call does nothing and gives 0.
  unfoldable pub close : SocketStream K → ℤ × SocketStream K
  close s =
      if is_positive s.fd
      then (let (r, k) = sys.close_fd s.kernel s.fd in (r, record { fd = pos 0; kernel = k }))
      else (pos 0, s)

  pub read_within :
      (s : SocketStream K) (n : ℕ) (bs : Bytes) → (read s n).0 ≡ received bs → length bs ≤ n
  unfolding read
  read_within s n bs e = ground (arith, sys.recv_within s.kernel s.fd n bs)

  abbrev pub socket_stream : Stream (SocketStream K)
  socket_stream = record { read = read; write = write; close = close; read_within = read_within }
