-- ===== src/Io/Socket/Closed.antt =====
-- `Close` of `SocketStream`, called again: minet/src/io/Stream.cpp.
use Prim.Native.Nat.{ℕ}
use minet_core.Prelude.{false, ◌≡◌, refl, arith, Bytes}
use minet_core.Prelude.Int.{pos, is_positive}
use minet_core.Io.Stream.{ReadResult}
use minet_core.Io.Status
use minet_core.Io.Socket.{System, SocketStream, read, write, close}

module _ {K : Type 0} (sys : System K) where
  close-fd : (s : SocketStream K) → is_positive (close sys s).1.fd ≡ false
  unfolding close
  close-fd s = ground arith

  closed-close : (q : SocketStream K) → is_positive q.fd ≡ false → close sys q ≡ (pos 0, q)
  unfolding close
  closed-close q h = rw h refl

  closed-read :
      (q : SocketStream K) (n : ℕ) → is_positive q.fd ≡ false → read sys q n ≡ (ReadResult.error, q)
  unfolding read
  closed-read q n h = rw h refl

  closed-write :
      (q : SocketStream K) (bs : Bytes)
      → is_positive q.fd ≡ false
      → write sys q bs ≡ (Status.error, q)
  unfolding write
  closed-write q bs h = rw h refl

  -- After a `Close` the descriptor is gone: a second `Close` gives 0 and makes no system call, and
  -- `Read` and `Write` give an error and make none.
  pub close-closed :
      (s : SocketStream K)
      → let q = (close sys s).1 in
        (close sys q ≡ (pos 0, q))
        × ((n : ℕ) → read sys q n ≡ (ReadResult.error, q))
        × ((bs : Bytes) → write sys q bs ≡ (Status.error, q))
  close-closed s =
      let e = close-fd s in
      (
        closed-close (close sys s).1 e,
        λ n. closed-read (close sys s).1 n e,
        λ bs. closed-write (close sys s).1 bs e,
      )
