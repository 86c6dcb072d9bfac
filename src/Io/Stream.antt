-- ===== src/Io/Stream.antt =====
-- The stream interface: `Stream` of minet/src/io/Stream.h.
use Prim.Native.Nat.{ℕ, ◌≤◌}
use minet_core.Prelude.{◌≡◌, Bytes, length}
use minet_core.Prelude.Int.{ℤ, pos}
use minet_core.Io.Status

-- What `Read` returns, together with what it put into the buffer. No byte at all is the end.
pub data ReadResult : Type 0 where
  received : Bytes → ReadResult
  again : ReadResult
  error : ReadResult

-- The number that `Read` returns.
abbrev pub read_code : ReadResult → ℤ
read_code (received bs) = pos (length bs)
read_code ReadResult.again = Status.again
read_code ReadResult.error = Status.error

-- The virtual functions of `Stream`, on the state `S` of a stream, and the one thing that callers
-- rely on: `Read` puts at most as many bytes into the buffer as it was asked for.
pub record Stream (S : Type 0) : Type 0 where
  pub read : S → ℕ → ReadResult × S
  pub write : S → Bytes → ℤ × S
  pub close : S → ℤ × S
  pub read_within : (s : S) (n : ℕ) (bs : Bytes) → (read s n).0 ≡ received bs → length bs ≤ n
