-- ===== src/Io/Reader/Block.antt =====
-- `Read(buffer, length)` of minet/src/io/StreamReader.cpp within what is buffered and beyond it, and
-- `_Flush` on a stream that would block.
use Prim.Native.Nat.{ℕ, zero, suc, ◌+◌, ◌-◌, ◌%◌, ◌^◌, ◌≤◌, ◌<◌, min}
use minet_core.Prelude.{
  false, ◌||◌, [], ◌++◌, ◌≡◌, refl, ap, ◌∙◌, arith, ◌==◌, if◌then◌else◌, Bytes, length, take, drop,
  get_elem?, none, some, length-append, length-drop, length-take,
}
use minet_core.Prelude.Int.{pos}
use minet_core.Io.Stream.{ReadResult, received, Stream}
use minet_core.Io.Status
use minet_core.Io.Reader.{
  Reader, buffer_size, char_to_int, overwrite, refill, flush, read_flushed, read, read_loop,
  read_block, block_result, to_ssize,
}
use minet_core.Io.Reader.Steps.{IsValid}

module _ {S : Type 0} (io : Stream S) where
  flush-pending : (r : Reader S) → r.head < r.tail → flush io r ≡ r
  unfolding flush
  flush-pending r h = ground arith

  flush-received :
      (r : Reader S) (bs : Bytes)
      → r.head ≡ r.tail
      → (io.read r.stream buffer_size).0 ≡ received bs
      → flush io r ≡ refill io r (received bs) (io.read r.stream buffer_size).1
  unfolding flush
  flush-received r bs h e = ground arith

  -- The loop without fuel, its end, and one round.
  loop_none :
      (r : Reader S) (n remaining : ℕ) (out : Bytes) → read_loop io zero r n remaining out ≡ none
  unfolding read_loop
  loop_none r n remaining out = refl

  loop_done :
      (fuel : ℕ) (r : Reader S) (n : ℕ) (out : Bytes)
      → read_loop io (suc fuel) r n 0 out ≡ some (0, out, r)
  unfolding read_loop
  loop_done fuel r n out = refl

  loop_round :
      (fuel : ℕ) (r f : Reader S) (n remaining : ℕ) (out : Bytes)
      → 0 < remaining
      → r.eof ≡ false
      → flush io r ≡ f
      → 0 < min n (f.tail - f.head)
      → read_loop io (suc fuel) r n remaining out
        ≡ read_loop io fuel
            (record f { head = f.head + min n (f.tail - f.head) })
            n
            ((remaining + 2 ^ 64 - min n (f.tail - f.head)) % 2 ^ 64)
            (out ++ take (min n (f.tail - f.head)) (drop f.head f.buffer))
  unfolding read_loop
  loop_round fuel r f n remaining out h e k p = rw k (
      let a : (remaining == 0 || r.eof) ≡ false = ground arith in
      let b : (min n (f.tail - f.head) == 0) ≡ false = ground arith in rw (a, b))

  loop-pending :
      (fuel : ℕ) (r : Reader S) (n : ℕ)
      → r.eof ≡ false
      → n ≤ r.tail - r.head
      → read_loop io (suc (suc fuel)) r n n []
        ≡ some (0, take n (drop r.head r.buffer), record r { head = r.head + n })
  loop-pending fuel r zero e h =
      loop_done (suc fuel) r zero []
      ∙ ap (λ k. some (0, [], record r { head = k })) {x = r.head} {y = r.head + 0} (omega arith)
  loop-pending fuel r (suc m) e h =
      let size : min (suc m) (r.tail - r.head) ≡ suc m = omega arith in
      loop_round (suc fuel) r r (suc m) (suc m) [] (omega arith) e (flush-pending r (omega arith))
        (omega arith)
      ∙ ap
          (λ k.
            read_loop io (suc fuel) (record r { head = r.head + k }) (suc m)
              ((suc m + 2 ^ 64 - k) % 2 ^ 64) (take k (drop r.head r.buffer)))
          size
      ∙ ap
          (λ k.
            read_loop io (suc fuel) (record r { head = r.head + suc m }) (suc m) k
              (take (suc m) (drop r.head r.buffer)))
          {x = (suc m + 2 ^ 64 - suc m) % 2 ^ 64} {y = 0} (omega arith)
      ∙ loop_done fuel (record r { head = r.head + suc m }) (suc m)
          (take (suc m) (drop r.head r.buffer))

  read_block-started :
      (fuel : ℕ) (r : Reader S) (n : ℕ)
      → r.eof ≡ false
      → read_block io fuel r n ≡ block_result io n (read_loop io fuel r n n [])
  unfolding read_block
  read_block-started fuel r n e =
      ap
        (λ b.
          if b
          then some (Status.end_of_file, [], r)
          else block_result io n (read_loop io fuel r n n []))
        e

  -- When all bytes asked for are pending, they are copied and nothing else is.
  pub read_block-pending :
      (fuel : ℕ) (r : Reader S) (n : ℕ)
      → IsValid r
      → r.eof ≡ false
      → n ≤ r.tail - r.head
      → read_block io (suc (suc fuel)) r n
        ≡ some (pos n, take n (drop r.head r.buffer), record r { head = r.head + n })
  read_block-pending fuel r n v e h =
      read_block-started (suc (suc fuel)) r n e
      ∙ ap (block_result io n) (loop-pending fuel r n e h)
      ∙ ap (λ z. some (z, take n (drop r.head r.buffer), record r { head = r.head + n }))
          {x = to_ssize io ((n + 2 ^ 64 - 0) % 2 ^ 64)} {y = pos n} (ground arith)

  -- The second round, on a reader with nothing pending.
  loop_refilled :
      (fuel : ℕ) (r : Reader S) (n remaining : ℕ) (bs before : Bytes)
      → length r.buffer ≡ buffer_size
      → r.eof ≡ false
      → r.head ≡ r.tail
      → 0 < remaining
      → 0 < n
      → 0 < length bs
      → (io.read r.stream buffer_size).0 ≡ received bs
      → (r' : Reader S) × (left : ℕ) × (out : Bytes) × (read_loop io (suc fuel) r n remaining before
          ≡ read_loop io fuel r' n left out)
        × (length out ≡ length before + min n (length bs))
  loop_refilled fuel r n remaining bs before b e h p q l t =
      let s = (io.read r.stream buffer_size).1 in
      let f : Reader S = refill io r (received bs) s in
      let size = min n (f.tail - f.head) in
      let chunk = take size (drop f.head f.buffer) in
      (
        record f { head = f.head + size },
        (remaining + 2 ^ 64 - size) % 2 ^ 64,
        before ++ chunk,
        loop_round fuel r f n remaining before p e (flush-received r bs h t) (omega arith),
        omega (
          arith,
          length-append before chunk,
          length-take size (overwrite bs r.buffer),
          length-append bs (drop (length bs) r.buffer),
        ),
      )

  -- With some bytes pending, but fewer than asked for, and a next chunk that has more than are missing: whatever
  -- the stream does afterwards, and whether the call ends or not, after two rounds of its loop the reader has
  -- copied the pending bytes and as many of the chunk as were asked for in all, which is more bytes than
  -- the caller's buffer holds.
  pub read_block-overflow :
      (fuel : ℕ) (r : Reader S) (n : ℕ) (bs : Bytes)
      → IsValid r
      → r.eof ≡ false
      → r.head < r.tail
      → r.tail - r.head < n
      → n < 2 ^ 63
      → (io.read r.stream buffer_size).0 ≡ received bs
      → n < r.tail - r.head + length bs
      → (r' : Reader S) × (left : ℕ) × (out : Bytes) × (read_block io (suc (suc fuel)) r n
          ≡ block_result io n (read_loop io fuel r' n left out))
        × (length out ≡ r.tail - r.head + min n (length bs))
        × (n < length out)
  read_block-overflow fuel r n bs v e h few small t many =
      let size = min n (r.tail - r.head) in
      let chunk = take size (drop r.head r.buffer) in
      let round =
        loop_round (suc fuel) r r n n [] (omega arith) e (flush-pending r h) (omega arith) in
      let (r', left, out, again, long) =
        loop_refilled fuel (record r { head = r.head + size }) n ((n + 2 ^ 64 - size) % 2 ^ 64) bs
          chunk v.size_is e (omega arith) (omega arith) (omega arith) (omega arith) t in
      let first : length chunk ≡ r.tail - r.head = omega (
        arith,
        v.size_is,
        v.bounded,
        length-take size (drop r.head r.buffer),
        length-drop r.head r.buffer,
      ) in
      (
        r',
        left,
        out,
        read_block-started (suc (suc fuel)) r n e ∙ ap (block_result io n) (round ∙ again),
        omega (arith, long, first),
        omega (arith, long, first),
      )

  -- A stream that would block makes the reader give its last chunk again: `_head` goes back to the
  -- front of the buffer, and `_tail` stays.
  pub read-again :
      (r : Reader S) (c : ℕ)
      → r.eof ≡ false
      → r.head ≡ r.tail
      → 0 < r.tail
      → (io.read r.stream buffer_size).0 ≡ ReadResult.again
      → get_elem? r.buffer 0 ≡ some c
      → read io r
        ≡ (char_to_int c, record r { stream = (io.read r.stream buffer_size).1; head = 1 })
  unfolding read flush read_flushed
  read-again r c e h t a g = ground arith
