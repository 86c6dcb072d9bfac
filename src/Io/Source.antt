-- ===== src/Io/Source.antt =====
-- Sources of bytes, as the parsers see them, and the streams that can feed one.
use Prim.Native.Nat.{ℕ, ◌<◌}
use minet_core.Prelude.{◌≡◌, ◌⊎◌, [], ◌∷◌, ◌++◌, Bytes}
use minet_core.Io.Stream.{ReadResult, received, Stream}

-- A stream that holds some bytes and then ends. It gives at least one byte where one is left, which
-- is what a blocking socket and a buffer do; at the end it gives nothing, or an error, and stays
-- there.
pub record Holding {S : Type 0} (io : Stream S) : Type 1 where
  pub Holds : S → Bytes → Type 0
  pub at_data :
      (s : S) (n c : ℕ) (cs : Bytes)
      → 0 < n
      → Holds s (c ∷ cs)
      → (front rest : Bytes) × ((io.read s n).0 ≡ received (c ∷ front))
        × (cs ≡ front ++ rest)
        × Holds (io.read s n).1 rest
  pub at_end :
      (s : S) (n : ℕ)
      → Holds s []
      → (((io.read s n).0 ≡ received []) ⊎ ((io.read s n).0 ≡ ReadResult.error))
        × Holds (io.read s n).1 []
