-- ===== src/Io/BufferInput.antt =====
-- The in-memory stream: `BufferInputStream` of minet/src/io/Stream.cpp.
pub mod Holds
use Prim.Native.Nat.{ℕ, ◌+◌, ◌-◌, ◌≤◌, min}
use minet_core.Prelude.{
  Bool, true, false, not, [], ◌≡◌, refl, arith, leb, Bytes, length, take, drop, if◌then◌else◌,
  length-take,
}
use minet_core.Prelude.Int.{ℤ, pos}
use minet_core.Io.Stream.{ReadResult, received, Stream}
use minet_core.Io.Status

pub record BufferInputStream : Type 0 where
  pub buffer : Bytes
  pub offset : ℕ
  pub closed : Bool

-- The constructor.
abbrev pub open_buffer : Bytes → BufferInputStream
open_buffer bs = record { buffer = bs; offset = 0; closed = false }

abbrev pub is_readable : BufferInputStream → Bool
is_readable s = not s.closed

-- `Read`. At the end it gives an error, and not 0.
unfoldable pub read : BufferInputStream → ℕ → ReadResult × BufferInputStream
read s n =
    if not (is_readable s)
    then (ReadResult.error, s)
    else if leb (length s.buffer) s.offset
    then (ReadResult.error, s)
    else (let size = min n (length s.buffer - s.offset) in
        (received (take size (drop s.offset s.buffer)), record s { offset = s.offset + size }))

abbrev pub write : BufferInputStream → Bytes → ℤ × BufferInputStream
write s bs = (Status.error, s)

abbrev pub close : BufferInputStream → ℤ × BufferInputStream
close s = (pos 0, record s { closed = true })

pub read_within :
    (s : BufferInputStream) (n : ℕ) (bs : Bytes) → (read s n).0 ≡ received bs → length bs ≤ n
unfolding read
read_within s n bs e =
    ground (arith, length-take (min n (length s.buffer - s.offset)) (drop s.offset s.buffer))

instance abbrev pub buffer_stream : Stream BufferInputStream
buffer_stream = record { read = read; write = write; close = close; read_within = read_within }
