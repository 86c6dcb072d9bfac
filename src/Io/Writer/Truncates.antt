-- ===== src/Io/Writer/Truncates.antt =====
-- Writes that cross the end of the buffer, and the error of `Flush`:
-- minet/src/io/StreamWriter.cpp.
use Prim.Native.Nat.{ℕ, zero, suc, ◌+◌, ◌-◌, ◌<◌, min}
use minet_core.Prelude.{
  true, false, [], ◌∷◌, ◌++◌, ◌≡◌, ◌⊎◌, inl, inr, refl, sym, ap, ◌∙◌, arith, ◌==◌, Bytes, length,
  take, drop, some, Bool-cases, append-nil, length-take, length-drop, take-append-drop,
}
use mathlib.Core.Path.{subst}
use minet_core.Prelude.Int.{ℤ, pos, negsuc, is_negative}
use minet_core.Io.Stream.{Stream}
use minet_core.Io.Writer.{
  Writer, buffer_size, copy_to, after_write, flush, write_loop, write_result, write,
}
use minet_core.Io.Writer.Fits.{IsValid, content, copy_to-take, loop_kept}

module _ {S : Type 0} (io : Stream S) where
  -- Some bytes went to one `Write` of the stream `s`: a success left the buffer empty, and a failure
  -- left its end where it was.
  pub record Sent (s : S) (bytes : Bytes) (before : ℕ) (q : Writer S) : Type 0 where
    pub stream_is : q.stream ≡ (io.write s bytes).1
    pub tail_is :
        (is_negative (io.write s bytes).0 ≡ false) × (q.tail ≡ 0)
        ⊎ (is_negative (io.write s bytes).0 ≡ true) × (q.tail ≡ before)

  -- What `Flush` gives when something waits: a negative result, and all of it was sent.
  pub record Failed (w : Writer S) (m : ℤ × Writer S) : Type 0 where
    pub negative : is_negative m.0 ≡ true
    pub sent : Sent w.stream (content w) w.tail m.1

  after_write_cases :
      (w : Writer S) (r : ℤ) (s : S)
      → (is_negative (after_write io w r s).0 ≡ true)
        × ((after_write io w r s).1.stream ≡ s)
        × ((is_negative r ≡ false) × ((after_write io w r s).1.tail ≡ 0)
            ⊎ (is_negative r ≡ true) × ((after_write io w r s).1.tail ≡ w.tail))
  after_write_cases w (pos n) s = (refl, refl, inl (refl, refl))
  after_write_cases w (negsuc n) s = elim (Bool-cases (n == 1)) [
    | inl h ↦ rw h (refl, refl, inr (refl, refl))
    | inr h ↦ rw h (refl, refl, inr (refl, refl))
  ]

  -- A flush of a writer with something in it reports a failure, also when the stream took it all.
  pub flush-fails : (w : Writer S) → 0 < w.tail → Failed w (flush io w)
  unfolding flush
  flush-fails w h =
      let e : (w.tail == 0) ≡ false = ground arith in
      let (n, s, t) =
        after_write_cases w (io.write w.stream (content w)).0 (io.write w.stream (content w)).1 in
      rw e (record { negative = n; sent = record { stream_is = s; tail_is = t } })

  after_write-IsValid :
      (w : Writer S) (r : ℤ) (s : S) → IsValid w → IsValid (after_write io w r s).1
  after_write-IsValid w (pos n) s v = record { size_is = v.size_is; bounded = omega arith }
  after_write-IsValid w (negsuc n) s v = elim (Bool-cases (n == 1)) [
    | inl h ↦ rw h (record { size_is = v.size_is; bounded = v.bounded })
    | inr h ↦ rw h (record { size_is = v.size_is; bounded = v.bounded })
  ]

  flush-IsValid : (w : Writer S) → 0 < w.tail → IsValid w → IsValid (flush io w).1
  unfolding flush
  flush-IsValid w h v =
      let e : (w.tail == 0) ≡ false = ground arith in
      rw e (
        after_write-IsValid w (io.write w.stream (content w)).0 (io.write w.stream (content w)).1 v)

  copy_none : (k : ℕ) (buffer : Bytes) → copy_to k [] buffer ≡ buffer
  copy_none k buffer =
      ap (λ i. take k buffer ++ drop i buffer) {x = k + 0} {y = k} (omega arith)
      ∙ take-append-drop k buffer

  -- A round on a full buffer ends the loop.
  loop_full :
      (fuel : ℕ) (w : Writer S) (b : ℕ) (bs : Bytes)
      → w.tail ≡ buffer_size
      → write_loop io (suc fuel) w (b ∷ bs) ≡ some (b ∷ bs, (flush io w).1)
  unfolding write_loop
  loop_full fuel w b bs h =
      let e : (w.tail == buffer_size) ≡ true = ground arith in
      let size : min (length (b ∷ bs)) (buffer_size - w.tail) ≡ 0 = omega arith in
      let n : is_negative (flush io w).0 ≡ true = (flush-fails w (omega arith)).negative in
      rw (e, size, copy_none w.tail w.buffer) (rw n refl)

  nonempty-drop : (k : ℕ) (xs : Bytes) → k < length xs → (c : ℕ) × (d : Bytes) × (drop k xs ≡ c ∷ d)
  nonempty-drop k [] h = absurd (omega arith)
  nonempty-drop zero (x ∷ xs) h = (x, xs, refl)
  nonempty-drop (suc k) (x ∷ xs) h = nonempty-drop k xs (omega arith)

  loop_truncates :
      (w : Writer S) (bs : Bytes)
      → IsValid w
      → buffer_size - w.tail < length bs
      → let k = buffer_size - w.tail in
        (q : Writer S) × (write_loop io (suc (suc zero)) w bs ≡ some (drop k bs, q))
        × Sent w.stream (content w ++ take k bs) buffer_size q
        × IsValid q
  loop_truncates w [] v h = absurd (omega arith)
  loop_truncates w (b ∷ bs) v h = elim (Bool-cases (w.tail == buffer_size)) [
    | inl e ↦
        let k : buffer_size - w.tail ≡ 0 = ground (arith) in
        rw k (
          (flush io w).1,
          loop_full (suc zero) w b bs (ground arith),
          subst (λ x. Sent w.stream x buffer_size (flush io w).1) (sym (append-nil (content w)))
              (subst (λ n. Sent w.stream (content w) n (flush io w).1) {x = w.tail}
                {y = buffer_size} (ground arith) (flush-fails w (ground arith)).sent),
          flush-IsValid w (ground arith) v,
        )
    | inr e ↦
        let k = buffer_size - w.tail in
        let front = take k (b ∷ bs) in
        let filled : Writer S = record w {
          buffer = copy_to w.tail front w.buffer;
          tail = w.tail + k;
        } in
        let size : min (length (b ∷ bs)) k ≡ k = omega arith in
        let len : length front ≡ k = omega (arith, length-take k (b ∷ bs)) in
        let (c, d, cut) = nonempty-drop k (b ∷ bs) h in
        let (same_size, kept) =
          copy_to-take w.tail front w.buffer (omega (arith, v.size_is, v.bounded)) in
        let failed = flush-fails filled (omega (arith, v.bounded)) in
        (
          (flush io filled).1,
          loop_kept io (suc zero) w b bs (ground (arith, v.bounded))
              ∙ ap
                  (λ i.
                    write_loop io (suc zero)
                      (record w {
                        buffer = copy_to w.tail (take i (b ∷ bs)) w.buffer;
                        tail = w.tail + i;
                      })
                      (drop i (b ∷ bs)))
                  size
              ∙ ap (write_loop io (suc zero) filled) cut
              ∙ loop_full zero filled c d (omega (arith, v.bounded))
              ∙ ap (λ l. some (l, (flush io filled).1)) (sym cut),
          subst (λ n. Sent w.stream (content w ++ front) n (flush io filled).1) {x = w.tail + k}
              {y = buffer_size} (omega (arith, v.bounded))
              (subst (λ x. Sent w.stream x (w.tail + k) (flush io filled).1)
                (ap (λ i. take (w.tail + i) filled.buffer) (sym len) ∙ kept) failed.sent),
          flush-IsValid filled (omega (arith, v.bounded))
              (record { size_is = same_size ∙ v.size_is; bounded = omega (arith, v.bounded) }),
        )
  ]

  -- On a well-formed writer, a write that does not fit takes what fills the buffer, sends the buffer,
  -- and ends there: the other bytes are not written, the count returned says so, and the writer is
  -- well-formed.
  pub write-truncates :
      (w : Writer S) (bs : Bytes)
      → IsValid w
      → buffer_size - w.tail < length bs
      → (q : Writer S) × (write io w bs ≡ some (pos (buffer_size - w.tail), q))
        × Sent w.stream (content w ++ take (buffer_size - w.tail) bs) buffer_size q
        × IsValid q
  unfolding write
  write-truncates w bs v h =
      let k : ℕ = buffer_size - w.tail in
      let (q, e, s, u) = loop_truncates w bs v h in
      (
        q,
        ap (write_result io (length bs)) e
            ∙ ap (λ i. some (pos i, q)) {x = length bs - length (drop k bs)} {y = k}
                (omega (arith, length-drop k bs)),
        s,
        u,
      )
