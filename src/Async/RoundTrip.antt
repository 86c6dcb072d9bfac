-- ===== src/Async/RoundTrip.antt =====
-- The parser of minet/src/utils/AsyncParser.cpp reads back every request on the wire.
use minet_core.Prelude.{
  ℕ, ◌≤◌, true, List, [], ◌∷◌, ◌++◌, ◌≡◌, ◌≢◌, refl, ap, ◌∙◌, arith, Bytes, length, All, equal,
  bytes_eq, all-imp, All-append, All-map,
}
use minet_core.Prelude.Int.{ℤ, pos}
use minet_core.Prelude.Map.{find}
use minet_core.Prelude.Result.{returned, ◌>>=◌, bind-eq-returned}
use minet_core.Http.{HttpVersion}
use minet_core.Request.{HttpRequest, StreamRef, empty_request}
use minet_core.Stoi.{to_string, int_max, is_digit, starts_with_digit}
use minet_core.Stoi.RoundTrip.{stoi-to_string, to_string_digits}
use minet_core.Async.{Parser, State, create}
use minet_core.Async.Chars.{is_header_key_char, is_header_value_char}
use minet_core.Async.Header.{store_header}
use minet_core.Async.Run.{complete, run}
use minet_core.Async.Wire.{
  Wire, Header, IsHeader, IsOther, IsWire, crlf, all_headers, length_header, render_headers, render,
  render_line, Reads,
}
use minet_core.Async.Stored.{store_headers, Stored, store_headers-Stored}
use minet_core.Async.Pieces.{
  run_method, run_path, run_version, run_header, run_end, run_end_body, run_body,
}

-- The parser between two headers.
pub record At (r : HttpRequest) (p : Parser) : Type 0 where
  pub handler_is : p.handler ≡ State.header_key
  pub token_is : p.token ≡ []
  pub request_is : p.request ≡ r

run_headers :
    (hs : List Header) (p : Parser) (rest : Bytes) {r0 r : HttpRequest}
    → At r0 p
    → All IsHeader hs
    → store_headers r0 hs ≡ returned r
    → (q : Parser) × (run p (render_headers hs rest) ≡ run q (crlf ++ rest)) × At r q
unfolding render_headers store_headers
run_headers [] p rest a h e = (p, refl, ground arith)
run_headers ((key, value) ∷ hs) p rest {r0} a (now, later) e =
    let (r', e1, e2) = bind-eq-returned (store_header r0 key value) (λ r'. store_headers r' hs) e in
    let p' : Parser = record p {
      handler = State.header_key;
      key = key;
      token = [];
      request = r';
    } in
    let (q, e3, a') = run_headers hs p' rest (ground arith) later e2 in
    (
      q,
      run_header p key value (render_headers hs rest) a.handler_is a.token_is now
            (rw a.request_is e1)
          ∙ e3,
      a',
    )

-- The empty line, and the body.
run_tail :
    (body : Bytes) (p : Parser) (rest : Bytes)
    → p.handler ≡ State.header_key
    → p.request.content_length ≡ pos (length body)
    → p.request.body ≡ []
    → length body ≤ int_max
    → (q : Parser) × (run p (crlf ++ (body ++ rest)) ≡ returned (complete q rest))
      × (q.request ≡ record (p.request) { body = body })
run_tail [] p rest h l b s =
    (record p { handler = State.done }, run_end p rest h (rw l), ground arith)
run_tail (c ∷ cs) p rest h l b s = (
  record p {
    handler = State.done;
    request = record (p.request) { body = p.request.body ++ (c ∷ cs) };
  },
  run_end_body p ((c ∷ cs) ++ rest) h (rw l (ground arith))
      ∙ run_body cs (record p { handler = State.body }) c rest refl (rw (b, l) (omega arith)),
  rw b,
)

pub digit-value : (c : ℕ) → is_digit c ≡ true → is_header_value_char c ≡ true
unfolding is_header_value_char
digit-value c h = ground arith

pub starts_with_digit-ne-nil : (s : Bytes) → starts_with_digit s ≡ true → s ≢ []
starts_with_digit-ne-nil [] h e = cc
starts_with_digit-ne-nil (c ∷ cs) h e = cc

pub length_header-IsHeader : (body : Bytes) → IsHeader (length_header body)
unfolding is_header_key_char
length_header-IsHeader body =
    let (first, digits) = to_string_digits (length body) in
    (
      refl,
      starts_with_digit-ne-nil (to_string (length body)) first,
      all-imp is_digit is_header_value_char (to_string (length body)) digit-value digits,
    )

pub store_length :
    (r : HttpRequest) (hs : List Header) (body : Bytes) {r' : HttpRequest}
    → store_headers r hs ≡ returned r'
    → length body ≤ int_max
    → store_headers r (hs ++ (length_header body ∷ []))
      ≡ returned (record r' { content_length = pos (length body) })
unfolding store_headers store_header equal
store_length r [] body {r'} e h = rw (stoi-to_string (length body) h) (
    ap (λ m. m >>= λ (q : HttpRequest). returned (record q { content_length = pos (length body) }))
      e)
store_length r ((key, value) ∷ hs) body e h =
    let (r1, e1, e2) = bind-eq-returned (store_header r key value) (λ q. store_headers q hs) e in
    rw e1 (store_length r1 hs body e2 h)

-- The request after the request line.
abbrev pub line_of : Wire → HttpRequest → HttpRequest
line_of w r = record r {
  content_length = pos 0;
  method = w.method;
  path = w.path;
  version = HttpVersion.http_1_1;
}

pub run_line :
    (w : Wire) (r : HttpRequest) (garbage : ℤ) (tail : Bytes)
    → IsWire w
    → (q : Parser) × (run (create r garbage) (render_line w tail) ≡ run q tail) × At (line_of w r) q
run_line w r garbage tail h =
    let p : Parser = record (create r garbage) {
      handler = State.space1;
      token = [];
      request = record r { content_length = pos 0; method = w.method };
    } in
    (
      record p { handler = State.header_key; token = []; request = line_of w r },
      run_method w.method r garbage _ h.method_known
          ∙ run_path p w.path _ refl refl h.path_is
          ∙ run_version (record p { handler = State.path; token = w.path }) tail refl,
      record { handler_is = refl; token_is = refl; request_is = refl },
    )

all_headers-IsHeader : (w : Wire) → IsWire w → All IsHeader (all_headers w)
all_headers-IsHeader w h =
    All-append IsHeader w.headers (length_header w.body ∷ [])
      (All-map IsOther IsHeader w.headers (λ x k. k.0) h.headers_are)
      (length_header-IsHeader w.body, tt)

-- The stored headers, on top of the request line, read the request that was sent.
pub Stored-Reads :
    (w : Wire) (stream : StreamRef) {r q : HttpRequest}
    → Stored w.headers (line_of w (empty_request stream)) r
    → q ≡ record r { content_length = pos (length w.body); body = w.body }
    → Reads w q
unfolding find
Stored-Reads w stream {r} {q} s e = record {
  method_is = ap (λ (x : HttpRequest). x.method) e ∙ s.line.method_same;
  path_is = ap (λ (x : HttpRequest). x.path) e ∙ s.line.path_same;
  version_is = ap (λ (x : HttpRequest). x.version) e ∙ s.line.version_same;
  length_is = ap (λ (x : HttpRequest). x.content_length) e;
  body_is = ap (λ (x : HttpRequest). x.body) e;
  host_is = ap (λ (x : HttpRequest). x.host) e ∙ s.host_is;
  type_is = ap (λ (x : HttpRequest). x.content_type) e ∙ s.type_is;
  headers_are = λ k p. ap (λ (x : HttpRequest). find k x.headers) e ∙ s.headers_are k p;
}

-- Fed a request on the wire, whatever follows it, the parser accepts at its last character and leaves
-- the rest. The request then has the method, path, headers and body that were sent: of several
-- headers with one key it has the last.
pub run-render :
    (w : Wire) (stream : StreamRef) (garbage : ℤ) (rest : Bytes)
    → IsWire w
    → (q : Parser) × (run (create (empty_request stream) garbage) (render w rest)
        ≡ returned (complete q rest))
      × Reads w q.request
unfolding render
run-render w stream garbage rest h =
    let r0 : HttpRequest = line_of w (empty_request stream) in
    let (p, line, a) =
      run_line w (empty_request stream) garbage (render_headers (all_headers w) (w.body ++ rest))
        h in
    let (r, stored, s) = store_headers-Stored w.headers r0 h.headers_are in
    let length_stored = store_length r0 w.headers w.body stored h.body_fits in
    let (p', headers, a') =
      run_headers (all_headers w) p (w.body ++ rest) a (all_headers-IsHeader w h) length_stored in
    let (q, tail, e) =
      run_tail w.body p' rest a'.handler_is
        (ap (λ (x : HttpRequest). x.content_length) a'.request_is)
        (ap (λ (x : HttpRequest). x.body) a'.request_is ∙ s.line.body_same) h.body_fits in
    (
      q,
      line ∙ headers ∙ tail,
      Stored-Reads w stream s
          (e ∙ ap (λ (x : HttpRequest). record x { body = w.body }) a'.request_is),
    )
