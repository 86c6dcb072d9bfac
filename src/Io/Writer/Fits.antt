-- ===== src/Io/Writer/Fits.antt =====
-- Writes that fit in the buffer: minet/src/io/StreamWriter.cpp.
use Prim.Native.Nat.{ℕ, zero, suc, ◌+◌, ◌-◌, ◌≤◌, ◌<◌, min}
use minet_core.Prelude.{
  false, [], ◌∷◌, ◌++◌, ◌≡◌, refl, sym, ap, ◌∙◌, arith, ◌==◌, Bytes, length, take, drop, Option,
  some, append_assoc, append-nil, length-append, length-take, length-drop, take_all, drop_all,
  take-append,
}
use minet_core.Prelude.Int.{ℤ, pos}
use minet_core.Io.Stream.{Stream}
use minet_core.Io.Writer.{Writer, buffer_size, copy_to, write_loop, write_result, write}

pub record IsValid {S : Type 0} (w : Writer S) : Type 0 where
  pub size_is : length w.buffer ≡ buffer_size
  pub bounded : w.tail ≤ buffer_size

-- The bytes that wait to be sent.
abbrev pub content : {S : Type 0} → Writer S → Bytes
content w = take w.tail w.buffer

-- A copy behind the first `at` bytes.
pub copy_to-take :
    (at : ℕ) (bs buffer : Bytes)
    → at + length bs ≤ length buffer
    → (length (copy_to at bs buffer) ≡ length buffer)
      × (take (at + length bs) (copy_to at bs buffer) ≡ take at buffer ++ bs)
copy_to-take at bs buffer h =
    let front = take at buffer ++ bs in
    let rest = drop (at + length bs) buffer in
    let n : length front ≡ at + length bs =
      omega (arith, length-append (take at buffer) bs, length-take at buffer) in
    let e : copy_to at bs buffer ≡ front ++ rest = sym (append_assoc (take at buffer) bs rest) in
    (
      ap length e ∙ omega (arith, length-append front rest, length-drop (at + length bs) buffer),
      ap (take (at + length bs)) e
          ∙ ap (λ k. take k (front ++ rest)) (sym n)
          ∙ take-append front rest,
    )

-- What a call of `write` comes to: its result, and the writer after it.
pub record Wrote {S : Type 0} (z : ℤ) (bytes : Bytes) (stream : S) (m : Option (ℤ × Writer S))
    : Type 0 where
  pub after : Writer S
  pub result : m ≡ some (z, after)
  pub valid : IsValid after
  pub content_is : content after ≡ bytes
  pub stream_is : after.stream ≡ stream

module _ {S : Type 0} (io : Stream S) where
  pub loop_kept :
      (fuel : ℕ) (w : Writer S) (b : ℕ) (bs : Bytes)
      → w.tail < buffer_size
      → let size = min (length (b ∷ bs)) (buffer_size - w.tail) in
        write_loop io (suc fuel) w (b ∷ bs)
        ≡ write_loop io fuel
            (record w {
              buffer = copy_to w.tail (take size (b ∷ bs)) w.buffer;
              tail = w.tail + size;
            })
            (drop size (b ∷ bs))
  unfolding write_loop
  loop_kept fuel w b bs h = let e : (w.tail == buffer_size) ≡ false = ground arith in rw e refl

  loop_end : (fuel : ℕ) (w : Writer S) → write_loop io (suc fuel) w [] ≡ some ([], w)
  unfolding write_loop
  loop_end fuel w = refl

  -- One round takes all that fits.
  loop-fits :
      (w : Writer S) (b : ℕ) (bs : Bytes)
      → w.tail + length (b ∷ bs) ≤ buffer_size
      → write_loop io (suc (suc zero)) w (b ∷ bs)
        ≡ some (
          [],
          record w { buffer = copy_to w.tail (b ∷ bs) w.buffer; tail = w.tail + length (b ∷ bs) },
        )
  loop-fits w b bs h =
      let n : ℕ = length (b ∷ bs) in
      let after : ℕ → Bytes → Writer S =
        λ size front. record w { buffer = copy_to w.tail front w.buffer; tail = w.tail + size } in
      let size : min n (buffer_size - w.tail) ≡ n = omega arith in
      loop_kept (suc zero) w b bs (omega arith)
      ∙ ap (λ k. write_loop io (suc zero) (after k (take k (b ∷ bs))) (drop k (b ∷ bs))) size
      ∙ ap (λ l. write_loop io (suc zero) (after n l) (drop n (b ∷ bs)))
          (take_all n (b ∷ bs) (omega arith))
      ∙ ap (write_loop io (suc zero) (after n (b ∷ bs))) (drop_all n (b ∷ bs) (omega arith))
      ∙ loop_end zero (after n (b ∷ bs))

  -- On a well-formed writer, a write that fits is taken whole, behind what is there, and nothing is
  -- sent yet.
  pub write-fits :
      (w : Writer S) (bs : Bytes)
      → IsValid w
      → w.tail + length bs ≤ buffer_size
      → Wrote (pos (length bs)) (content w ++ bs) w.stream (write io w bs)
  unfolding write
  write-fits w [] v h = record {
    after = w;
    result = ap (write_result io 0) (loop_end (suc zero) w);
    valid = v;
    content_is = sym (append-nil (content w));
    stream_is = refl;
  }
  write-fits w (b ∷ bs) v h =
      let (n, c) = copy_to-take w.tail (b ∷ bs) w.buffer (omega (arith, v.size_is)) in
      record {
        after = record w {
          buffer = copy_to w.tail (b ∷ bs) w.buffer;
          tail = w.tail + length (b ∷ bs);
        };
        result =
            ap (write_result io (length (b ∷ bs))) (loop-fits w b bs h)
            ∙ ap
                (λ k. some (
                  pos k,
                  record w {
                    buffer = copy_to w.tail (b ∷ bs) w.buffer;
                    tail = w.tail + length (b ∷ bs);
                  },
                ))
                {x = length (b ∷ bs) - 0} {y = length (b ∷ bs)} (omega arith);
        valid = record { size_is = n ∙ v.size_is; bounded = h };
        content_is = c;
        stream_is = refl;
      }
