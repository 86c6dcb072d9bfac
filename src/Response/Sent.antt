-- ===== src/Response/Sent.antt =====
-- What a response's stream is given: minet/src/components/RequestDispatcher.cpp over
-- minet/src/io/StreamWriter.cpp.
use minet_core.Prelude.{
  ◌+◌, ◌-◌, ◌≤◌, ◌<◌, List, [], ◌∷◌, ◌++◌, some, ◌≡◌, refl, sym, ap, ◌∙◌, arith, Bytes, length,
  take, append_assoc, append-nil, length-append, length-take, false, inl, inr, Option-cases,
}
use minet_core.Prelude.Int.{ℤ, pos, is_negative}
use minet_core.Request.{HttpResponse}
use minet_core.Io.Stream.{Stream}
use minet_core.Io.Writer.{Writer, buffer_size, create, flush, write, destroy}
use minet_core.Io.Writer.Fits.{IsValid, content, write-fits}
use minet_core.Io.Writer.Truncates.{flush-fails, write-truncates}
use minet_core.Response.{
  write_pieces, next_piece, destroyed, write_response, response_pieces, with_length,
}

-- The texts one after the other.
unfoldable pub joined : List Bytes → Bytes
joined [] = []
joined (p ∷ ps) = p ++ joined ps

content-length : {S : Type 0} (w : Writer S) → IsValid w → length (content w) ≡ w.tail
content-length w v = omega (arith, length-take w.tail w.buffer, v.size_is, v.bounded)

module _ {S : Type 0} (io : Stream S) where
  -- Texts that fit together stay in the buffer.
  pub write_pieces-fits :
      (w : Writer S) (ps : List Bytes)
      → IsValid w
      → w.tail + length (joined ps) ≤ buffer_size
      → (q : Writer S) × (write_pieces io w ps ≡ some q)
        × IsValid q
        × (content q ≡ content w ++ joined ps)
        × (q.stream ≡ w.stream)
  unfolding write_pieces joined
  write_pieces-fits w [] v h = (w, refl, v, sym (append-nil (content w)), refl)
  write_pieces-fits w (p ∷ ps) v h =
      let one = write-fits io w p v (omega (arith, length-append p (joined ps))) in
      let moved : one.after.tail ≡ w.tail + length p =
        sym (content-length one.after one.valid)
        ∙ ap length one.content_is
        ∙ omega (arith, length-append (content w) p, content-length w v) in
      let (q, e, v', c, s) =
        write_pieces-fits one.after ps one.valid (omega (arith, length-append p (joined ps))) in
      (
        q,
        ap (λ m. next_piece io m (λ q. write_pieces io q ps)) one.result ∙ e,
        v',
        c ∙ ap (λ x. x ++ joined ps) one.content_is ∙ append_assoc (content w) p (joined ps),
        s ∙ one.stream_is,
      )

  write_pieces-append :
      (w q : Writer S) (xs ys : List Bytes)
      → write_pieces io w xs ≡ some q
      → write_pieces io w (xs ++ ys) ≡ write_pieces io q ys
  unfolding write_pieces
  write_pieces-append w q [] ys h = cc
  write_pieces-append w q (x ∷ xs) ys h = elim (Option-cases (write io w x)) [
    | inl e ↦ cc
    | inr ((n, r), e) ↦ rw e (write_pieces-append r q xs ys (rw e at h))
  ]

  write_pieces-one :
      (w q : Writer S) (n : ℤ) (p : Bytes)
      → write io w p ≡ some (n, q)
      → write_pieces io w (p ∷ []) ≡ some q
  unfolding write_pieces
  write_pieces-one w q n p h = rw h refl

  destroy-sends : (w : Writer S) → 0 < w.tail → destroy io w ≡ (io.write w.stream (content w)).1
  destroy-sends w h = (flush-fails io w h).sent.stream_is

  destroy_empty : (w : Writer S) → w.tail ≡ 0 → destroy io w ≡ w.stream
  unfolding flush
  destroy_empty w h = ground arith

  create-IsValid :
      (s : S) (garbage : Bytes) → length garbage ≡ buffer_size → IsValid (create s garbage)
  create-IsValid s garbage h = record { size_is = h; bounded = omega arith }

  response-nonempty : (r : HttpResponse) → 0 < length (joined (response_pieces r))
  unfolding joined response_pieces
  response-nonempty r = omega arith

  -- A response that fits in the buffer, start line, headers and body, is given to the stream as one
  -- text in one `Write`, and the response has the length of its body.
  pub write_response-fits :
      (garbage : Bytes) (s : S) (r : HttpResponse)
      → length garbage ≡ buffer_size
      → length (joined (response_pieces (with_length r))) ≤ buffer_size
      → write_response io garbage s r
        ≡ (with_length r, some (io.write s (joined (response_pieces (with_length r)))).1)
  unfolding write_response
  write_response-fits garbage s r g h =
      let ps = response_pieces (with_length r) in
      let (q, e, v, c, t) =
        write_pieces-fits (create s garbage) ps (create-IsValid s garbage g) (omega arith) in
      let some_bytes : 0 < length (joined ps) = response-nonempty (with_length r) in
      ap (λ m. (with_length r, destroyed io m)) e
      ∙ ap (λ x. (with_length r, some x))
          (destroy-sends q (omega (arith, content-length q v, ap length c))
            ∙ ap (λ x. (io.write x (content q)).1) t
            ∙ ap (λ x. (io.write s x).1) c)

  -- Of a response whose head fits in the buffer, and which does not fit with its body, the stream is
  -- given what fills the buffer, if it takes that; the rest of the body is lost.
  pub write_response-truncates :
      (garbage : Bytes) (s : S) (r : HttpResponse) (head : List Bytes) (body : Bytes)
      → length garbage ≡ buffer_size
      → response_pieces (with_length r) ≡ head ++ (body ∷ [])
      → length (joined head) ≤ buffer_size
      → buffer_size < length (joined head) + length body
      → is_negative (io.write s (joined head ++ take (buffer_size - length (joined head)) body)).0
        ≡ false
      → write_response io garbage s r ≡ (
        with_length r,
        some (io.write s (joined head ++ take (buffer_size - length (joined head)) body)).1,
      )
  unfolding write_response
  write_response-truncates garbage s r head body g parts fits over taken =
      let (q, e, v, c, t) =
        write_pieces-fits (create s garbage) head (create-IsValid s garbage g) (omega arith) in
      let len : q.tail ≡ length (joined head) = sym (content-length q v) ∙ ap length c in
      let (f, w, sent, u) = write-truncates io q body v (omega arith) in
      let bytes : content q ++ take (buffer_size - q.tail) body
          ≡ joined head ++ take (buffer_size - length (joined head)) body =
        ap (λ x. x ++ take (buffer_size - q.tail) body) c
        ∙ ap (λ n. joined head ++ take (buffer_size - n) body) len in
      let stream : f.stream
          ≡ (io.write s (joined head ++ take (buffer_size - length (joined head)) body)).1 =
        sent.stream_is
        ∙ ap (λ x. (io.write x (content q ++ take (buffer_size - q.tail) body)).1) t
        ∙ ap (λ x. (io.write s x).1) bytes in
      let kept : is_negative (io.write q.stream (content q ++ take (buffer_size - q.tail) body)).0
          ≡ false =
        ap (λ x. is_negative (io.write x (content q ++ take (buffer_size - q.tail) body)).0) t
        ∙ ap (λ x. is_negative (io.write s x).0) bytes
        ∙ taken in
      let closed : destroy io f ≡ f.stream = elim sent.tail_is [
        | inl (a, z) ↦ destroy_empty f z
        | inr (a, z) ↦ cc
      ] in
      ap (λ ps. (with_length r, destroyed io (write_pieces io (create s garbage) ps))) parts
      ∙ ap (λ m. (with_length r, destroyed io m))
          (write_pieces-append (create s garbage) q head (body ∷ []) e
            ∙ write_pieces-one q f (pos (buffer_size - q.tail)) body w)
      ∙ ap (λ x. (with_length r, some x)) (closed ∙ stream)
