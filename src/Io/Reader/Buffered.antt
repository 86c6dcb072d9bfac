-- ===== src/Io/Reader/Buffered.antt =====
-- Reading what is in the buffer: minet/src/io/StreamReader.cpp.
use minet_core.Prelude.{
  ℕ, suc, ◌+◌, ◌-◌, ◌≤◌, ◌<◌, false, ◌∷◌, ◌++◌, ◌≡◌, refl, sym, ap, ◌∙◌, arith, ltb, Bytes, length,
  take, drop, some, Bool-cases, inl, inr, length-take, length-append, take-take, take-append,
}
use mathlib.Core.Path.{subst}
use minet_core.Prelude.Int.{pos}
use minet_core.Io.Stream.{Stream, received}
use minet_core.Io.Reader.{
  Reader, buffer_size, create, char_to_int, refill, flush, read_flushed, read, read_block,
}
use minet_core.Io.Reader.Steps.{
  IsValid, pending, pending-next, refill-IsValid, flush_full, flush_empty, read_flushed-char,
}
use minet_core.Io.Reader.Block.{read_block-pending}

-- An open reader with these bytes in its buffer.
pub record Buffers {S : Type 0} (r : Reader S) (bs : Bytes) : Type 0 where
  pub valid : IsValid r
  pub is_open : r.eof ≡ false
  pub bytes : pending r ≡ bs

-- There is something in the buffer when there are bytes.
Buffers-lt : {S : Type 0} (r : Reader S) (c : ℕ) (cs : Bytes) → Buffers r (c ∷ cs) → r.head < r.tail
Buffers-lt r c cs b = elim (Bool-cases (ltb r.head r.tail)) [
  | inl h ↦ ground arith
  | inr h ↦
      let k : r.tail - r.head ≡ 0 = ground arith in
      cc (b.bytes, ap (λ n. take n (drop r.head r.buffer)) k)
]

module _ {S : Type 0} (io : Stream S) where
  -- What `Read()` does with a byte in the buffer.
  pub record Reads (r : Reader S) (c : ℕ) (cs : Bytes) : Type 0 where
    pub after : Reader S
    pub result : read io r ≡ (char_to_int c, after)
    pub rest : Buffers after cs

  pub read-Buffers : (r : Reader S) (c : ℕ) (cs : Bytes) → Buffers r (c ∷ cs) → Reads r c cs
  unfolding read
  read-Buffers r c cs b =
      let h = Buffers-lt r c cs b in
      let (d, g, p) = pending-next r b.valid h in
      let q : Reader S = record r { head = suc r.head } in
      let same : c ∷ cs ≡ d ∷ pending q = sym b.bytes ∙ p in
      let first : d ≡ c = cc in
      record {
        after = q;
        result =
            ap (read_flushed io) (flush_full io r (ground arith))
            ∙ read_flushed-char io r d b.is_open h g
            ∙ ap (λ x. (char_to_int x, q)) first;
        rest = record {
          valid = record { size_is = b.valid.size_is; ordered = h; bounded = b.valid.bounded };
          is_open = b.is_open;
          bytes = cc;
        };
      }

  -- A new reader, when the first chunk of its stream has these bytes.
  pub flush-Buffers :
      (s : S) (garbage : Bytes) (c : ℕ) (cs : Bytes)
      → length garbage ≡ buffer_size
      → (io.read s buffer_size).0 ≡ received (c ∷ cs)
      → Buffers (flush io (create s garbage)) (c ∷ cs)
  flush-Buffers s garbage c cs g e =
      let r : Reader S = create s garbage in
      let t = (io.read s buffer_size).1 in
      let (v, p) =
        refill-IsValid io r (c ∷ cs) t
          (record { size_is = g; ordered = omega arith; bounded = omega arith })
          (io.read_within s buffer_size (c ∷ cs) e) in
      subst (λ q. Buffers q (c ∷ cs)) (sym (flush_empty io r refl ∙ ap (λ x. refill io r x t) e))
        (record { valid = v; is_open = ground arith; bytes = p })

  -- Flushing first makes no difference to `Read()`.
  pub read-flush :
      (r : Reader S) (c : ℕ) (cs : Bytes)
      → Buffers (flush io r) (c ∷ cs)
      → read io (flush io r) ≡ read io r
  unfolding read
  read-flush r c cs b =
      ap (read_flushed io)
        (flush_full io (flush io r) (let h = Buffers-lt (flush io r) c cs b in ground arith))

  -- A block that is in the buffer.
  pub read_block-Buffers :
      (fuel : ℕ) (r : Reader S) (bs rest : Bytes)
      → Buffers r (bs ++ rest)
      → read_block io (suc (suc fuel)) r (length bs)
        ≡ some (pos (length bs), bs, record r { head = r.head + length bs })
  read_block-Buffers fuel r bs rest b =
      let m = r.tail - r.head in
      let fits : length bs ≤ m =
        omega
          (arith, ap length b.bytes, length-append bs rest, length-take m (drop r.head r.buffer)) in
      let same : take (length bs) (drop r.head r.buffer) ≡ bs =
        sym (take-take m (length bs) (drop r.head r.buffer) fits)
        ∙ ap (take (length bs)) b.bytes
        ∙ take-append bs rest in
      read_block-pending io fuel r (length bs) b.valid b.is_open fits
      ∙ ap (λ x. some (pos (length bs), x, record r { head = r.head + length bs })) same
