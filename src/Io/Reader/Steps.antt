-- ===== src/Io/Reader/Steps.antt =====
-- One call of the reader, by what is in its buffer: minet/src/io/StreamReader.cpp.
use Prim.Native.Nat.{ℕ, suc, ◌-◌, ◌≤◌, ◌<◌}
use minet_core.Prelude.{
  true, false, ◌∷◌, ◌≡◌, refl, ap, ◌∙◌, arith, ◌==◌, Bytes, length, take, drop, get_elem?, some,
  length-append, length-drop, element_at, take-append,
}
use minet_core.Io.Stream.{received, Stream}
use minet_core.Io.Reader.{Reader, buffer_size, char_to_int, overwrite, refill, flush, read_flushed}

-- The offsets lie in the buffer.
pub record IsValid {S : Type 0} (r : Reader S) : Type 0 where
  pub size_is : length r.buffer ≡ buffer_size
  pub ordered : r.head ≤ r.tail
  pub bounded : r.tail ≤ buffer_size

-- The bytes that were taken from the stream and not yet given.
abbrev pub pending : {S : Type 0} → Reader S → Bytes
pending r = take (r.tail - r.head) (drop r.head r.buffer)

length-overwrite :
    (bs buffer : Bytes) → length bs ≤ length buffer → length (overwrite bs buffer) ≡ length buffer
length-overwrite bs buffer h =
    omega (arith, length-append bs (drop (length bs) buffer), length-drop (length bs) buffer)

-- One character off the front of what is pending.
pub pending-next :
    {S : Type 0} (r : Reader S)
    → IsValid r
    → r.head < r.tail
    → (c : ℕ) × (get_elem? r.buffer r.head ≡ some c)
      × (pending r ≡ c ∷ pending (record r { head = suc r.head }))
pending-next r v h =
    let (c, e, d) = element_at r.head r.buffer (omega arith) in
    let k : r.tail - r.head ≡ suc (r.tail - suc r.head) = omega arith in (c, e, rw (k, d) refl)

module _ {S : Type 0} (io : Stream S) where
  -- A reader with something pending.
  pub read_flushed-char :
      (r : Reader S) (c : ℕ)
      → r.eof ≡ false
      → r.head < r.tail
      → get_elem? r.buffer r.head ≡ some c
      → read_flushed io r ≡ (char_to_int c, record r { head = suc r.head })
  unfolding read_flushed
  read_flushed-char r c e h g = ground arith

  pub flush_full : (r : Reader S) → (r.head == r.tail) ≡ false → flush io r ≡ r
  unfolding flush
  flush_full r h = rw h

  pub flush_empty :
      (r : Reader S)
      → (r.head == r.tail) ≡ true
      → flush io r ≡ refill io r (io.read r.stream buffer_size).0 (io.read r.stream buffer_size).1
  unfolding flush
  flush_empty r h = rw h

  -- The reader after a refill with some bytes.
  pub refill-IsValid :
      (r : Reader S) (bs : Bytes) (s : S)
      → IsValid r
      → length bs ≤ buffer_size
      → IsValid (refill io r (received bs) s) × (pending (refill io r (received bs) s) ≡ bs)
  refill-IsValid r bs s v h = (
    record {
      size_is = length-overwrite bs r.buffer (omega arith) ∙ v.size_is;
      ordered = omega arith;
      bounded = h;
    },
    ap (λ k. take k (overwrite bs r.buffer)) {x = length bs - 0} {y = length bs} (omega arith)
        ∙ take-append bs (drop (length bs) r.buffer),
  )
