-- ===== src/Io/Tests.antt =====
-- Runs of the streams of minet/src/io, and the theorems at concrete inputs.
use Prim.Native.Nat.{ℕ, zero, suc, ◌≤◌, ◌<◌}
use minet_core.Prelude.{
  true, false, [], ◌∷◌, ◌++◌, ◌≡◌, inl, refl, arith, Bytes, codes, length, some,
}
use minet_core.Prelude.Int.{pos}
use minet_core.Io.BufferInput
use minet_core.Io.BufferInput.{BufferInputStream, open_buffer, buffer_stream}
use minet_core.Io.BufferInput.Holds.{buffer_holding, open_buffer-Holds}
use minet_core.Io.Socket.{Errno, SystemResult, done, failed, System, SocketStream, socket_stream}
use minet_core.Io.Reader.{
  Reader, overwrite, read, read_block, read_loop, block_result, char_to_int, buffer_size,
}
use minet_core.Io.Reader
use minet_core.Io.Reader.Steps.{IsValid}
use minet_core.Io.Reader.Content.{Delivers, Gives, read_data}
use minet_core.Io.Reader.Block.{read_block-overflow}
use minet_core.Io.Writer.{Writer, write}
use minet_core.Io.Writer.Fits.{Wrote, write-fits, content}
use minet_core.Io.Writer.Fits

abbrev zeros : ℕ → Bytes
zeros zero = []
zeros (suc n) = 0 ∷ zeros n

abbrev reader_on : Bytes → Bytes → Reader BufferInputStream
reader_on pending rest = record {
  stream = open_buffer rest;
  buffer = overwrite pending (zeros 1024);
  head = 0;
  tail = length pending;
  eof = false;
}

two_left : Delivers buffer_stream buffer_holding (reader_on (codes "h") (codes "i")) (codes "hi")
two_left = record {
  valid = record { size_is = refl; ordered = omega arith; bounded = omega arith };
  left = inl (refl, (codes "i", refl, open_buffer-Holds (codes "i")));
}

read_data_example :
    Gives
      (λ q. Delivers buffer_stream buffer_holding q (codes "i"))
      (pos 104)
      (read buffer_stream (reader_on (codes "h") (codes "i")))
read_data_example =
    read_data buffer_stream buffer_holding (reader_on (codes "h") (codes "i")) 104 (codes "i")
      two_left

nothing_left : Delivers buffer_stream buffer_holding (reader_on [] []) []
nothing_left = record {
  valid = record { size_is = refl; ordered = omega arith; bounded = omega arith };
  left = inl (refl, ([], refl, open_buffer-Holds []));
}

hello-IsValid : (rest : Bytes) → IsValid (reader_on (codes "hello") rest)
hello-IsValid rest = record { size_is = refl; ordered = omega arith; bounded = omega arith }

-- One byte is pending, two are asked for, and the stream has three more: six are copied, the last
-- two of them for the second time, since the end of this stream is an error.
abbrev overflowed : Reader BufferInputStream
overflowed = record {
  stream = record (open_buffer (codes "abc")) { offset = 3 };
  buffer = overwrite (codes "abc") (zeros 1024);
  head = 2;
  tail = 3;
  eof = true;
}

overflow_run :
    read_block buffer_stream 6 (reader_on (codes "h") (codes "abc")) 2
    ≡ some (pos 6, codes "habcab", overflowed)
unfolding read_block read_loop Reader.flush BufferInput.read
overflow_run = refl

read_block-overflow_example :
    (r : Reader BufferInputStream) × (left : ℕ) × (out : Bytes) × (read_block buffer_stream 6
        (reader_on (codes "h") (codes "abc"))
        2
      ≡ block_result buffer_stream 2 (read_loop buffer_stream 4 r 2 left out))
    × (length out ≡ 3)
    × (2 < length out)
read_block-overflow_example =
    read_block-overflow buffer_stream 4 (reader_on (codes "h") (codes "abc")) 2 (codes "abc")
      (record { size_is = refl; ordered = omega arith; bounded = omega arith }) refl (omega arith)
      (omega arith) (omega arith) (unfold BufferInput.read in refl) (omega arith)

-- A socket that would block on `recv`, and keeps what is sent.
blocked_recv_within :
    (r : SystemResult Bytes) (n : ℕ) (bs : Bytes)
    → r ≡ failed Errno.eagain
    → r ≡ done bs
    → length bs ≤ n
blocked_recv_within r n bs f e = cc

abbrev blocked : System Bytes
blocked = record {
  recv = λ k fd n. (failed Errno.eagain, k);
  send = λ k fd bs. (done (length bs), k ++ bs);
  close_fd = λ k fd. (pos 0, k);
  recv_within = λ k fd n bs e. blocked_recv_within (failed Errno.eagain) n bs refl e;
}

abbrev socket : SocketStream Bytes
socket = record { fd = pos 3; kernel = [] }

-- A reader that gave all of its last chunk.
abbrev drained : Reader (SocketStream Bytes)
drained = record {
  stream = socket;
  buffer = overwrite (codes "ab") (zeros 1024);
  head = 2;
  tail = 2;
  eof = false;
}

abbrev writer : Writer (SocketStream Bytes)
writer = record { stream = socket; buffer = overwrite (codes "ab") (zeros 1024); tail = 2 }

writer-IsValid : Fits.IsValid writer
writer-IsValid = record { size_is = refl; bounded = omega arith }

write-fits_example :
    Wrote (pos 1) (codes "abc") socket (write (socket_stream blocked) writer (codes "c"))
write-fits_example =
    write-fits (socket_stream blocked) writer (codes "c") writer-IsValid (omega arith)
