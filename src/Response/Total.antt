-- ===== src/Response/Total.antt =====
-- Writing always ends: minet/src/io/StreamWriter.cpp and minet/src/components/RequestDispatcher.cpp.
use minet_core.Prelude.{
  ◌-◌, List, [], ◌∷◌, some, ◌≡◌, inl, inr, refl, ap, ◌∙◌, arith, ltb, Bytes, length, Bool-cases,
}
use minet_core.Prelude.Int.{ℤ, pos}
use minet_core.Request.{HttpResponse}
use minet_core.Io.Stream.{Stream}
use minet_core.Io.Writer.{Writer, buffer_size, create, write, destroy}
use minet_core.Io.Writer.Fits.{IsValid, write-fits}
use minet_core.Io.Writer.Truncates.{write-truncates}
use minet_core.Response.{
  write_pieces, next_piece, destroyed, write_response, response_pieces, with_length,
}

module _ {S : Type 0} (io : Stream S) where
  -- Whatever the stream does, the two rounds are enough for the loop of `Write`, which ends on a
  -- well-formed writer.
  pub write_total :
      (w : Writer S) (bs : Bytes)
      → IsValid w
      → (z : ℤ) × (q : Writer S) × (write io w bs ≡ some (z, q)) × IsValid q
  write_total w bs v = elim (Bool-cases (ltb (buffer_size - w.tail) (length bs))) [
    | inl h ↦
        let (q, e, s, u) = write-truncates io w bs v (ground arith) in
        (pos (buffer_size - w.tail), q, e, u)
    | inr h ↦
        let f = write-fits io w bs v (ground (arith, v.bounded)) in
        (pos (length bs), f.after, f.result, f.valid)
  ]

  write_pieces-total :
      (w : Writer S) (ps : List Bytes)
      → IsValid w
      → (q : Writer S) × (write_pieces io w ps ≡ some q)
  unfolding write_pieces
  write_pieces-total w [] v = (w, refl)
  write_pieces-total w (p ∷ ps) v =
      let (z, r, e, u) = write_total w p v in
      let (q, f) = write_pieces-total r ps u in
      (q, ap (λ m. next_piece io m (λ x. write_pieces io x ps)) e ∙ f)

  pub write_response-total :
      (garbage : Bytes) (s : S) (r : HttpResponse)
      → length garbage ≡ buffer_size
      → (s' : S) × (write_response io garbage s r ≡ (with_length r, some s'))
  unfolding write_response
  write_response-total garbage s r g =
      let (q, e) =
        write_pieces-total (create s garbage) (response_pieces (with_length r))
          (record { size_is = g; bounded = omega arith }) in
      (destroy io q, ap (λ m. (with_length r, destroyed io m)) e)
