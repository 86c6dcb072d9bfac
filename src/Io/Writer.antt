-- ===== src/Io/Writer.antt =====
-- The buffered writer: `BufferedStreamWriter` of minet/src/io/StreamWriter.h and StreamWriter.cpp,
-- with assertions compiled out.
pub mod Fits
pub mod Truncates
use Prim.Native.Nat.{ℕ, zero, suc, ◌+◌, ◌-◌, min}
use minet_core.Prelude.{
  Bool, true, false, List, [], ◌∷◌, ◌++◌, Option, none, some, ◌==◌, if◌then◌else◌, Bytes, length,
  take, drop,
}
use minet_core.Prelude.Int.{ℤ, pos, negsuc, is_negative}
use minet_core.Io.Stream.{Stream}
use minet_core.Io.Status

-- `_sBufferSize`
abbrev pub buffer_size : ℕ
buffer_size = 1024

-- `tail` is the offset of `_tail` in the buffer, which is `_BufferSize()`.
pub record Writer (S : Type 0) : Type 0 where
  pub stream : S
  pub buffer : Bytes
  pub tail : ℕ

-- The constructor. The new buffer's bytes are indeterminate: they are an argument.
abbrev pub create : {S : Type 0} → S → Bytes → Writer S
create stream garbage = record { stream = stream; buffer = garbage; tail = 0 }

-- `memcpy` of some bytes to an offset in the buffer.
abbrev pub copy_to : ℕ → Bytes → Bytes → Bytes
copy_to at bs buffer = take at buffer ++ (bs ++ drop (at + length bs) buffer)

-- `-2`, what a stream gives when it would block
abbrev is_again : ℤ → Bool
is_again (pos n) = false
is_again (negsuc n) = n == 1

module _ {S : Type 0} (io : Stream S) where
  -- After the stream's `Write`. A success falls through to the last line, `return Error`.
  abbrev after_write : Writer S → ℤ → S → ℤ × Writer S
  after_write w r s =
      if is_negative r
      then (if is_again r
          then (Status.again, record w { stream = s })
          else (Status.error, record w { stream = s }))
      else (Status.error, record w { stream = s; tail = 0 })

  -- `Flush`
  unfoldable pub flush : Writer S → ℤ × Writer S
  flush w =
      if w.tail == 0
      then (pos 0, w)
      else (let (r, s) = io.write w.stream (take w.tail w.buffer) in after_write w r s)

  -- `*_tail++ = ch`
  abbrev put_char : Writer S → ℕ → ℤ × Writer S
  put_char w ch =
      (pos 1, record w { buffer = copy_to w.tail (ch ∷ []) w.buffer; tail = w.tail + 1 })

  -- `Write(char)`
  unfoldable pub write_char : Writer S → ℕ → ℤ × Writer S
  write_char w ch =
      if w.tail == buffer_size
      then (let (r, f) = flush w in if is_negative r then (r, f) else put_char f ch)
      else put_char w ch

  -- The `while` of `Write(buffer, length)` on fuel: the bytes that remain, and the writer. The copy
  -- comes first, then the test, and the offset moves last.
  unfoldable pub write_loop : ℕ → Writer S → Bytes → Option (Bytes × Writer S)
  write_loop zero w bs = none
  write_loop (suc fuel) w [] = some ([], w)
  write_loop (suc fuel) w (b ∷ bs) =
      let size = min (length (b ∷ bs)) (buffer_size - w.tail) in
      let copied : Writer S = record w { buffer = copy_to w.tail (take size (b ∷ bs)) w.buffer } in
      let (r, f) = flush copied in
      let flushed = write_loop fuel (record f { tail = f.tail + size }) (drop size (b ∷ bs)) in
      let kept = write_loop fuel (record copied { tail = w.tail + size }) (drop size (b ∷ bs)) in
      if w.tail == buffer_size then (if is_negative r then some (b ∷ bs, f) else flushed) else kept

  abbrev pub write_result : ℕ → Option (Bytes × Writer S) → Option (ℤ × Writer S)
  write_result n none = none
  write_result n (some (left, w)) = some (pos (n - length left), w)

  -- `Write(buffer, length)`. Two rounds are enough: the first fills the buffer or ends, and the
  -- second ends.
  unfoldable pub write : Writer S → Bytes → Option (ℤ × Writer S)
  write w bs = write_result (length bs) (write_loop (suc (suc zero)) w bs)

  -- The destructor.
  abbrev pub destroy : Writer S → S
  destroy w = (flush w).1.stream
