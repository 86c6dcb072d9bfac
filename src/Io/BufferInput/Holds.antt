-- ===== src/Io/BufferInput/Holds.antt =====
-- A `BufferInputStream` holds the bytes from its offset on: minet/src/io/Stream.cpp.
use Prim.Native.Nat.{ℕ, zero, suc, ◌+◌, ◌-◌, ◌≤◌, ◌<◌, min}
use minet_core.Prelude.{
  false, [], ◌∷◌, ◌++◌, ◌≡◌, ◌⊎◌, inr, refl, sym, ap, ◌∙◌, arith, Bytes, length, take, drop,
  length-drop, drop-drop, take-append-drop,
}
use minet_core.Io.Stream.{ReadResult, received}
use minet_core.Io.Source.{Holding}
use minet_core.Io.BufferInput.{BufferInputStream, read, buffer_stream, open_buffer}

abbrev pub Holds : BufferInputStream → Bytes → Type 0
Holds s bs = (s.closed ≡ false) × (drop s.offset s.buffer ≡ bs)

read-data :
    (s : BufferInputStream) (n : ℕ)
    → s.closed ≡ false
    → s.offset < length s.buffer
    → let size = min n (length s.buffer - s.offset) in
      read s n
      ≡ (received (take size (drop s.offset s.buffer)), record s { offset = s.offset + size })
unfolding read
read-data s n h l = ground arith

read_at_end :
    (s : BufferInputStream) (n : ℕ) → length s.buffer ≤ s.offset → read s n ≡ (ReadResult.error, s)
unfolding read
read_at_end s n l = ground arith

take-pred : (k c : ℕ) (cs : Bytes) → 0 < k → take k (c ∷ cs) ≡ c ∷ take (k - 1) cs
take-pred zero c cs h = absurd (omega arith)
take-pred (suc k) c cs h = ap (λ m. c ∷ take m cs) (omega arith)

drop-pred : (k c : ℕ) (cs : Bytes) → 0 < k → drop k (c ∷ cs) ≡ drop (k - 1) cs
drop-pred zero c cs h = absurd (omega arith)
drop-pred (suc k) c cs h = ap (λ m. drop m cs) (omega arith)

pub at_data :
    (s : BufferInputStream) (n c : ℕ) (cs : Bytes)
    → 0 < n
    → Holds s (c ∷ cs)
    → (front rest : Bytes) × ((read s n).0 ≡ received (c ∷ front))
      × (cs ≡ front ++ rest)
      × Holds (read s n).1 rest
at_data s n c cs pos (h, e) =
    let len : length s.buffer - s.offset ≡ suc (length cs) =
      sym (length-drop s.offset s.buffer) ∙ ap length e in
    let size = min n (length s.buffer - s.offset) in
    let r = read-data s n h (omega arith) in
    let some_size : 0 < size = omega arith in
    (
      take (size - 1) cs,
      drop (size - 1) cs,
      ap (λ t. t.0) r ∙ ap received (ap (take size) e ∙ take-pred size c cs some_size),
      sym (take-append-drop (size - 1) cs),
      rw r (
        h,
        sym (drop-drop size s.offset s.buffer) ∙ ap (drop size) e ∙ drop-pred size c cs some_size,
      ),
    )

pub at_end :
    (s : BufferInputStream) (n : ℕ)
    → Holds s []
    → (((read s n).0 ≡ received []) ⊎ ((read s n).0 ≡ ReadResult.error)) × Holds (read s n).1 []
at_end s n (h, e) =
    let len : length s.buffer - s.offset ≡ 0 = sym (length-drop s.offset s.buffer) ∙ ap length e in
    rw (read_at_end s n (omega arith)) (inr refl, (h, e))

abbrev pub buffer_holding : Holding buffer_stream
buffer_holding = record { Holds = Holds; at_data = at_data; at_end = at_end }

-- A new stream holds all its bytes.
pub open_buffer-Holds : (bs : Bytes) → Holds (open_buffer bs) bs
open_buffer-Holds bs = (refl, refl)
