-- ===== src/Io/Reader.antt =====
-- The buffered reader: `BufferedStreamReader` of minet/src/io/StreamReader.h and StreamReader.cpp.
pub mod Steps
pub mod Content
pub mod Block
pub mod Buffered
use Prim.Native.Nat.{ℕ, zero, suc, ◌+◌, ◌-◌, ◌%◌, ◌^◌, ◌≤◌, min}
use minet_core.Prelude.{
  Bool, true, false, not, ◌||◌, [], ◌++◌, ◌≡◌, Option, none, some, ltb, ◌==◌, if◌then◌else◌, Bytes,
  length, get_elem?, take, drop,
}
use minet_core.Prelude.Int.{ℤ, pos, negsuc}
use minet_core.Io.Stream.{ReadResult, received, Stream}
use minet_core.Io.Status

-- `_sBufferSize`
abbrev pub buffer_size : ℕ
buffer_size = 1024

-- A `char` as an `int`: it is signed.
abbrev pub char_to_int : ℕ → ℤ
char_to_int c = if ltb c 128 then pos c else negsuc (255 - c)

-- `_head` and `_tail` are offsets into the buffer.
pub record Reader (S : Type 0) : Type 0 where
  pub stream : S
  pub buffer : Bytes
  pub head : ℕ
  pub tail : ℕ
  pub eof : Bool

-- The constructor. The new buffer's bytes are indeterminate: they are an argument.
abbrev pub create : {S : Type 0} → S → Bytes → Reader S
create stream garbage = record {
  stream = stream;
  buffer = garbage;
  head = 0;
  tail = 0;
  eof = false;
}

-- Bytes written over the front of the buffer.
abbrev pub overwrite : Bytes → Bytes → Bytes
overwrite bs buffer = bs ++ drop (length bs) buffer

module _ {S : Type 0} (io : Stream S) where
  -- After the stream was read: `Again` moves `_head` back, and leaves `_tail`.
  abbrev pub refill : Reader S → ReadResult → S → Reader S
  refill r (received bs) s = record {
    stream = s;
    buffer = overwrite bs r.buffer;
    head = 0;
    tail = length bs;
    eof = length bs == 0;
  }
  refill r ReadResult.again s = record r { stream = s; head = 0 }
  refill r ReadResult.error s = record r { stream = s; head = 0; eof = true }

  -- `_Flush`
  unfoldable pub flush : Reader S → Reader S
  flush r =
      if not (r.head == r.tail)
      then r
      else (let (result, s) = io.read r.stream buffer_size in refill r result s)

  -- `*_head++`. A read outside the buffer gives 0 here; `IsValid` rules it out.
  abbrev pub next_char : Reader S → Option ℕ → ℤ × Reader S
  next_char r none = (pos 0, record r { head = suc r.head })
  next_char r (some c) = (char_to_int c, record r { head = suc r.head })

  -- `Read()` after `_Flush`
  unfoldable pub read_flushed : Reader S → ℤ × Reader S
  read_flushed r =
      if r.eof
      then (Status.end_of_file, r)
      else if r.head == r.tail
      then (Status.empty, r)
      else next_char r (get_elem? r.buffer r.head)

  -- `Read()`
  unfoldable pub read : Reader S → ℤ × Reader S
  read r = read_flushed (flush r)

  -- The `while` of `Read(buffer, length)` on fuel; `none` when that runs out. The bytes are those
  -- that were copied to the caller's buffer, in order. `remaining` is a `size_t`.
  unfoldable pub read_loop : ℕ → Reader S → ℕ → ℕ → Bytes → Option (ℕ × Bytes × Reader S)
  read_loop zero r n remaining out = none
  read_loop (suc fuel) r n remaining out =
      let f = flush r in
      let size = min n (f.tail - f.head) in
      let more =
        read_loop fuel (record f { head = f.head + size }) n ((remaining + 2 ^ 64 - size) % 2 ^ 64)
          (out ++ take size (drop f.head f.buffer)) in
      if remaining == 0 || r.eof
      then some (remaining, out, r)
      else if size == 0
      then some (remaining, out, f)
      else more

  -- `static_cast<ssize_t>(n)`
  abbrev pub to_ssize : ℕ → ℤ
  to_ssize n = if ltb n (2 ^ 63) then pos n else negsuc (2 ^ 64 - 1 - n)

  -- What the end of `Read(buffer, length)` makes of the loop's variables.
  abbrev pub block_result : ℕ → Option (ℕ × Bytes × Reader S) → Option (ℤ × Bytes × Reader S)
  block_result n none = none
  block_result n (some (remaining, out, r)) =
      some (to_ssize ((n + 2 ^ 64 - remaining) % 2 ^ 64), out, r)

  -- `Read(buffer, length)`: its result, the bytes copied, and the reader.
  unfoldable pub read_block : ℕ → Reader S → ℕ → Option (ℤ × Bytes × Reader S)
  read_block fuel r n =
      if r.eof then some (Status.end_of_file, [], r) else block_result n (read_loop fuel r n n [])
