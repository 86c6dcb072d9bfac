-- ===== src/Io/Reader/Content.antt =====
-- The reader gives the bytes of its stream in order: minet/src/io/StreamReader.cpp.
use Prim.Native.Nat.{ℕ, suc, ◌-◌, ◌<◌}
use minet_core.Prelude.{
  true, false, [], ◌∷◌, ◌++◌, ◌≡◌, ◌⊎◌, inl, inr, refl, sym, ap, ◌∙◌, arith, ltb, ◌==◌, Bytes, take,
  drop, Bool-cases,
}
use mathlib.Core.Path.{subst}
use minet_core.Prelude.Int.{ℤ}
use minet_core.Io.Stream.{ReadResult, received, Stream}
use minet_core.Io.Status
use minet_core.Io.Source.{Holding}
use minet_core.Io.Reader.Steps.{
  IsValid, pending, pending-next, read_flushed-char, flush_full, flush_empty, refill-IsValid,
}
use minet_core.Io.Reader.{Reader, buffer_size, char_to_int, refill, read_flushed, read}

module _ {S : Type 0} (io : Stream S) (source : Holding io) where
  open source use {Holds, at_data, at_end}

  -- The reader will give these bytes, and then the end.
  pub record Delivers (r : Reader S) (bs : Bytes) : Type 0 where
    pub valid : IsValid r
    pub left :
        (r.eof ≡ false) × ((rest : Bytes) × (bs ≡ pending r ++ rest) × Holds r.stream rest)
        ⊎ (r.eof ≡ true) × (bs ≡ []) × Holds r.stream []

-- What `Read()` gives, and the reader after it.
pub record Gives {S : Type 0} (P : Reader S → Type 0) (z : ℤ) (m : ℤ × Reader S) : Type 0 where
  pub value : m.0 ≡ z
  pub after : P m.1

module _ {S : Type 0} (io : Stream S) (source : Holding io) where
  open source use {Holds, at_data, at_end}

  read_ready :
      (r : Reader S) (c : ℕ) (cs rest : Bytes)
      → IsValid r
      → r.eof ≡ false
      → r.head < r.tail
      → c ∷ cs ≡ pending r ++ rest
      → Holds r.stream rest
      → Gives (λ q. Delivers io source q cs) (char_to_int c) (read_flushed io r)
  read_ready r c cs rest v e h b k =
      let (c', g, p) = pending-next r v h in
      let q : Reader S = record r { head = suc r.head } in
      let same : c ∷ cs ≡ c' ∷ (pending q ++ rest) = b ∙ ap (λ x. x ++ rest) p in
      subst (Gives (λ q. Delivers io source q cs) (char_to_int c))
        (sym (read_flushed-char io r c' e h g))
        (record {
          value = cc;
          after = record {
            valid = record { size_is = v.size_is; ordered = h; bounded = v.bounded };
            left = inl (e, (rest, cc, k));
          };
        })

  pending_none : (r : Reader S) → (r.head == r.tail) ≡ true → pending r ≡ []
  pending_none r h =
      ap (λ k. take k (drop r.head r.buffer)) {x = r.tail - r.head} {y = 0} (ground arith)

  -- The buffer is used up, and the stream has more.
  read_refilled :
      (r : Reader S) (c : ℕ) (cs : Bytes)
      → IsValid r
      → (r.head == r.tail) ≡ true
      → Holds r.stream (c ∷ cs)
      → Gives (λ q. Delivers io source q cs) (char_to_int c) (read io r)
  unfolding read
  read_refilled r c cs v h k =
      let (front, rest, e, b, k') = at_data r.stream buffer_size c cs (omega arith) k in
      let q : Reader S = refill io r (received (c ∷ front)) (io.read r.stream buffer_size).1 in
      let (v', p) =
        refill-IsValid io r (c ∷ front) (io.read r.stream buffer_size).1 v
          (io.read_within r.stream buffer_size (c ∷ front) e) in
      rw (flush_empty io r h ∙ ap (λ t. refill io r t (io.read r.stream buffer_size).1) e)
        (read_ready q c cs rest v' (ground arith) (omega arith) (rw (p, b) refl) k')

  -- A reader that will give some bytes, from its buffer and then from its stream, gives the first one
  -- and will then give the others.
  pub read_data :
      (r : Reader S) (c : ℕ) (cs : Bytes)
      → Delivers io source r (c ∷ cs)
      → Gives (λ q. Delivers io source q cs) (char_to_int c) (read io r)
  unfolding read
  read_data r c cs d = elim d.left [
    | inl (e, (rest, b, k)) ↦ elim (Bool-cases (r.head == r.tail)) [
      | inl h ↦
          read_refilled r c cs d.valid h
            (subst (Holds r.stream) (sym (b ∙ ap (λ x. x ++ rest) (pending_none r h))) k)
      | inr h ↦
          rw (flush_full io r h)
            (read_ready r c cs rest d.valid e (ground (arith, d.valid.ordered)) b k)
    ]
    | inr (e, b, k) ↦ cc
  ]

  read_flushed-eof : (r : Reader S) → r.eof ≡ true → read_flushed io r ≡ (Status.end_of_file, r)
  unfolding read_flushed
  read_flushed-eof r e = rw e

  -- At the end a refill sets the flag, whether it gets nothing or an error.
  refill_end :
      (r : Reader S) (t : ReadResult) (s : S)
      → IsValid r
      → (t ≡ received []) ⊎ (t ≡ ReadResult.error)
      → Holds s []
      → ((refill io r t s).eof ≡ true) × Delivers io source (refill io r t s) []
  refill_end r t s v (inl e) k = rw e (
    refl,
    record { valid = (refill-IsValid io r [] s v (omega arith)).0; left = inr (refl, refl, k) },
  )
  refill_end r t s v (inr e) k = rw e (
    refl,
    record {
      valid = record { size_is = v.size_is; ordered = omega arith; bounded = v.bounded };
      left = inr (refl, refl, k);
    },
  )

  -- The buffer is used up, and so is the stream.
  read_refilled_end :
      (r : Reader S)
      → IsValid r
      → (r.head == r.tail) ≡ true
      → Holds r.stream []
      → Gives (λ q. Delivers io source q []) Status.end_of_file (read io r)
  unfolding read
  read_refilled_end r v h k =
      let (t, k') = at_end r.stream buffer_size k in
      let (e, d) =
        refill_end r (io.read r.stream buffer_size).0 (io.read r.stream buffer_size).1 v t k' in
      rw (flush_empty io r h) (
        subst (Gives (λ q. Delivers io source q []) Status.end_of_file)
          (sym (
            read_flushed-eof
              (refill io r (io.read r.stream buffer_size).0 (io.read r.stream buffer_size).1) e))
          (record { value = refl; after = d }))

  -- Nothing is pending in an unfinished reader with nothing left.
  pending-nil : (r : Reader S) → IsValid r → pending r ≡ [] → (r.head == r.tail) ≡ true
  pending-nil r v e = elim (Bool-cases (ltb r.head r.tail)) [
    | inl h ↦ let (c, g, p) = pending-next r v (ground arith) in cc
    | inr h ↦ ground (arith, v.ordered)
  ]

  append-nil_left : (xs ys : Bytes) → [] ≡ xs ++ ys → (xs ≡ []) × (ys ≡ [])
  append-nil_left [] ys e = (refl, sym e)
  append-nil_left (x ∷ xs) ys e = cc

  -- At the end of a source `Read()` gives end-of-file, however often it is called.
  pub read_end :
      (r : Reader S)
      → Delivers io source r []
      → Gives (λ q. Delivers io source q []) Status.end_of_file (read io r)
  unfolding read
  read_end r d = elim d.left [
    | inl (e, (rest, b, k)) ↦
        let (none_pending, none_left) = append-nil_left (pending r) rest b in
        read_refilled_end r d.valid (pending-nil r d.valid none_pending)
          (subst (Holds r.stream) none_left k)
    | inr (e, b, k) ↦ elim (Bool-cases (r.head == r.tail)) [
      | inl h ↦ read_refilled_end r d.valid h k
      | inr h ↦
          subst (Gives (λ q. Delivers io source q []) Status.end_of_file)
            (sym (ap (read_flushed io) (flush_full io r h) ∙ read_flushed-eof r e))
            (record { value = refl; after = d })
    ]
  ]
