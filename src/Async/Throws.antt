-- ===== src/Async/Throws.antt =====
-- A request whose Content-Length is no number: minet/src/utils/AsyncParser.cpp.
use minet_core.Prelude.{
  true, List, [], ◌∷◌, ◌++◌, ◌≡◌, ◌≢◌, refl, ap, ◌∙◌, Bytes, codes, all, All, All-map, equal,
  bytes_eq,
}
use minet_core.Prelude.Int.{ℤ}
use minet_core.Prelude.Result.{Exception, returned, thrown, ◌>>=◌, bind-eq-returned}
use minet_core.Request.{HttpRequest, StreamRef, empty_request}
use minet_core.Stoi.{stoi}
use minet_core.Async.{Parser, State, create, push, feed_in}
use minet_core.Async.Chars.{is_header_key_char, is_header_value_char}
use minet_core.Async.Header.{store_header}
use minet_core.Async.Run.{run}
use minet_core.Async.Wire.{
  Wire, Header, IsHeader, IsOther, IsWire, crlf, render_headers, render_line,
}
use minet_core.Async.Stored.{store_headers, store_headers-Stored}
use minet_core.Async.Pieces.{
  run_class, run_colon, run_first, run_header, key-Pushes, value-Pushes, head_true,
}
use minet_core.Async.RoundTrip.{At, line_of, run_line}

store_header-thrown :
    (r : HttpRequest) (v : Bytes) {e : Exception}
    → stoi v ≡ thrown e
    → store_header r (codes "Content-Length") v ≡ thrown e
unfolding store_header equal
store_header-thrown r v h = ap (λ m. m >>= λ n. returned (record r { content_length = n })) h

run_value_end-thrown :
    (p : Parser) (rest : Bytes) {e : Exception}
    → p.handler ≡ State.header_value
    → store_header p.request p.key p.token ≡ thrown e
    → run p (crlf ++ rest) ≡ thrown e
unfolding run feed_in is_header_value_char
run_value_end-thrown p rest h k = rw h (rw k refl)

run_value-thrown :
    (p : Parser) (v rest : Bytes) {e : Exception}
    → p.handler ≡ State.space3
    → p.token ≡ []
    → v ≢ []
    → all is_header_value_char v ≡ true
    → store_header p.request p.key v ≡ thrown e
    → run p (v ++ (crlf ++ rest)) ≡ thrown e
run_value-thrown p [] rest h t ne a k = absurd (ne refl)
run_value-thrown p (c ∷ cs) rest h t ne a k =
    let (now, later) = head_true (is_header_value_char c) (all is_header_value_char cs) a in
    run_first p c (cs ++ (crlf ++ rest)) h now
    ∙ run_class State.header_value is_header_value_char value-Pushes cs
        (record (push p c) { handler = State.header_value }) (crlf ++ rest) refl later
    ∙ run_value_end-thrown
        (record p { handler = State.header_value; token = (p.token ++ (c ∷ [])) ++ cs }) rest refl
        (rw t k)

-- The headers up to Content-Length.
run_headers-thrown :
    (hs more : List Header) (v : Bytes) (p : Parser) (rest : Bytes) {r0 r : HttpRequest}
    {e : Exception}
    → At r0 p
    → All IsHeader hs
    → store_headers r0 hs ≡ returned r
    → IsHeader (codes "Content-Length", v)
    → stoi v ≡ thrown e
    → run p (render_headers (hs ++ ((codes "Content-Length", v) ∷ more)) rest) ≡ thrown e
unfolding render_headers store_headers
run_headers-thrown [] more v p rest a h s w t =
    run_class State.header_key is_header_key_char key-Pushes (codes "Content-Length") p _
      a.handler_is w.0
    ∙ run_colon (record p { token = p.token ++ codes "Content-Length" }) _ a.handler_is
    ∙ run_value-thrown
        (record p { handler = State.space3; key = p.token ++ codes "Content-Length"; token = [] }) v
        (render_headers more rest) refl refl w.1 w.2
        (rw a.token_is (store_header-thrown p.request v t))
run_headers-thrown ((key, value) ∷ hs) more v p rest {r0} a (now, later) s w t =
    let (r', e1, e2) = bind-eq-returned (store_header r0 key value) (λ r'. store_headers r' hs) s in
    run_header p key value (render_headers (hs ++ ((codes "Content-Length", v) ∷ more)) rest)
      a.handler_is a.token_is now (rw a.request_is e1)
    ∙ run_headers-thrown hs more v
        (record p { handler = State.header_key; key = key; token = []; request = r' }) rest
        (record { handler_is = refl; token_is = refl; request_is = refl }) later e2 w t

-- A request as `render_line` writes it, with well-formed headers and then a Content-Length that has the
-- form of a header, but whose value `std::stoi` throws at: a new parser throws the same exception
-- out of `Feed`, whatever headers and text follow.
pub run-bad_length :
    (w : Wire) (stream : StreamRef) (garbage : ℤ) (v : Bytes) (more : List Header) (rest : Bytes)
    (e : Exception)
    → IsWire w
    → IsHeader (codes "Content-Length", v)
    → stoi v ≡ thrown e
    → run
        (create (empty_request stream) garbage)
        (render_line w (render_headers (w.headers ++ ((codes "Content-Length", v) ∷ more)) rest))
      ≡ thrown e
run-bad_length w stream garbage v more rest e h k t =
    let hs = w.headers ++ ((codes "Content-Length", v) ∷ more) in
    let (p, line, a) = run_line w (empty_request stream) garbage (render_headers hs rest) h in
    let (r, stored, s) =
      store_headers-Stored w.headers (line_of w (empty_request stream)) h.headers_are in
    line
    ∙ run_headers-thrown w.headers more v p rest a
        (All-map IsOther IsHeader w.headers (λ x g. g.0) h.headers_are) stored k t
