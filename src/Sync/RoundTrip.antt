-- ===== src/Sync/RoundTrip.antt =====
-- The synchronous parser of minet/src/utils/Parser.cpp reads back a request that comes in one chunk.
use minet_core.Prelude.{
  ℕ, zero, suc, ◌+◌, ◌≤◌, ◌<◌, true, false, List, [], ◌∷◌, ◌++◌, ◌≡◌, ◌≢◌, refl, sym, ap, ◌∙◌,
  arith, ltb, ◌==◌, if◌then◌else◌, Bytes, codes, length, drop, all, All, All-append, append-nil,
  drop_all, length-append, some,
}
use mathlib.Core.Path.{subst}
use minet_core.Prelude.Int.{pos}
use minet_core.Http.{method_to_string}
use minet_core.Path.{clean_path}
use minet_core.Request.{HttpRequest, StreamRef, empty_request}
use minet_core.Io.Stream.{Stream, received}
use minet_core.Io.Reader
use minet_core.Io.Reader.{Reader, buffer_size, flush, read, read_block}
use minet_core.Io.Reader.Buffered.{Buffers, flush-Buffers, read-flush, read_block-Buffers}
use minet_core.Async.Wire.{
  Wire, Header, IsWire, Reads, render, render_headers, all_headers, length_header, crlf,
}
use minet_core.Async.Stored.{store_headers, store_headers-Stored}
use minet_core.Async.RoundTrip.{Stored-Reads, store_length, line_of, length_header-IsHeader}
use minet_core.Stoi.{to_string, starts_with_digit}
use minet_core.Stoi.RoundTrip.{to_string_digits}
use minet_core.Async.Sound.{IsPath}
use minet_core.Sync.Calls.{Outcome, returned, ◌>>=◌}
use minet_core.Sync.Token
use minet_core.Sync.Token.{RequestParser, next_char, next_token}
use minet_core.Sync.{
  ParseStatus, resize, parse_start_line, parse_body, after_body, parse_rest, after_headers,
  after_start_line, parse, parse_http_request,
}
use minet_core.Sync.Steps.{At, front, in_string}
use minet_core.Sync.Headers.{IsLine, parse_headers-Ends, starts_with_space, length-header}
use minet_core.Sync.StartLine.{IsShort, method-word, parse_start_line-Ends}

-- What the synchronous parser wants of a request besides what the asynchronous one does.
pub record IsPlainWire (w : Wire) : Type 0 where
  pub short : IsShort w.method
  pub path_word : all (in_string (codes " :\r\n")) w.path ≡ true
  pub lines : All IsLine w.headers

length-resize : (n : ℕ) (bs : Bytes) → length (resize n bs) ≡ n
length-resize zero bs = refl
length-resize (suc n) [] = ap suc (length-resize n [])
length-resize (suc n) (b ∷ bs) = ap suc (length-resize n bs)

module _ {S : Type 0} (io : Stream S) where
  -- The request of a call of `Parse` that gives 0.
  pub record Parsed (r : HttpRequest) (m : Outcome (ℕ × RequestParser S)) : Type 0 where
    pub after : RequestParser S
    pub result : m ≡ returned (0, after)
    pub request : after.request ≡ r

  after_body-full :
      (p : RequestParser S) (body : Bytes) (r : Reader S)
      → p.request.body ≡ []
      → after_body io p (length body) (some (pos (length body), body, r))
        ≡ returned
            (ParseStatus.ok, record p { reader = r; request = record (p.request) { body = body } })
  after_body-full p body r e =
      let n = length body in
      let room : ltb n n ≡ false = ground arith in
      let whole : (n == n) ≡ true = ground arith in
      let none_left : body ++ drop n (resize n p.request.body) ≡ body =
        ap (λ x. body ++ x)
          (drop_all n (resize n p.request.body) (omega (arith, length-resize n p.request.body)))
        ∙ append-nil body in
      rw (room, whole, none_left) refl

  parse_rest-Parsed :
      (fuel : ℕ) (p : RequestParser S) (body rest : Bytes)
      → At (body ++ rest) p
      → p.next ≡ 0
      → p.request.content_length ≡ pos (length body)
      → p.request.body ≡ []
      → length body ≤ 4096
      → Parsed
          (record (p.request) { body = body })
          (parse_rest io (suc (suc fuel)) p p.request.content_length)
  unfolding parse_body
  parse_rest-Parsed fuel p [] rest a z l b s = record {
    after = p;
    result = ap (parse_rest io (suc (suc fuel)) p) l;
    request = ap (λ x. let q : HttpRequest = record (p.request) { body = x } in q) b;
  }
  parse_rest-Parsed fuel p (c ∷ cs) rest a z l b s =
      let n = length (c ∷ cs) in
      let same : a.buffered ≡ (c ∷ cs) ++ rest = sym (a.bytes ∙ ap (λ k. front k a.buffered) z) in
      let ready = subst (Buffers p.reader) same a.ready in
      let r : Reader S = record (p.reader) { head = p.reader.head + n } in
      let some_left : (n == 0) ≡ false = ground arith in
      let small : ltb 4096 n ≡ false = ground arith in
      let finish : Outcome (ParseStatus × RequestParser S) → Outcome (ℕ × RequestParser S) = λ m.
        m >>= λ (x : ParseStatus × RequestParser S). elim x.0 [
          | ParseStatus.ok ↦ returned (0, x.1)
          | ParseStatus.not_match ↦ returned (5, x.1)
          | ParseStatus.error ↦ returned (5, x.1)
        ] in
      record {
        after = record p { reader = r; request = record (p.request) { body = c ∷ cs } };
        result =
            ap (parse_rest io (suc (suc fuel)) p) l
            ∙ ap
                (λ t.
                  if t
                  then returned (0, p)
                  else if ltb 4096 n
                  then returned (4, p)
                  else finish (parse_body io (suc (suc fuel)) p n))
                some_left
            ∙ ap (λ t. if t then returned (4, p) else finish (parse_body io (suc (suc fuel)) p n))
                small
            ∙ ap (λ o. finish (after_body io p n o))
                (read_block-Buffers io fuel p.reader (c ∷ cs) rest ready)
            ∙ ap finish (after_body-full p (c ∷ cs) r b);
        request = refl;
      }

  -- The parser starts on a full buffer as on an empty one that the first chunk fills.
  pub start_full :
      (fuel : ℕ) (s : S) (garbage : Bytes) (request : HttpRequest) (c : ℕ) (cs : Bytes)
      → Buffers (flush io (Reader.create s garbage)) (c ∷ cs)
      → parse_start_line io fuel (Token.create (flush io (Reader.create s garbage)) request)
        ≡ parse_start_line io fuel (Token.create (Reader.create s garbage) request)
  unfolding next_char next_token parse_start_line
  start_full fuel s garbage request c cs b =
      rw (read-flush io (Reader.create s garbage) c cs b) refl

space-digits : (s : Bytes) → starts_with_digit s ≡ true → starts_with_space s ≡ false
space-digits [] h = refl
space-digits (c ∷ cs) h = ground arith

length_header-IsLine : (body : Bytes) → IsLine (length_header body)
length_header-IsLine body =
    let (keys, some_value, values) = length_header-IsHeader body in
    let (first, digits) = to_string_digits (length body) in
    ((λ x. cc), keys, some_value, space-digits (to_string (length body)) first, values)

all_headers-IsLine : (w : Wire) → IsPlainWire w → All IsLine (all_headers w)
all_headers-IsLine w h =
    All-append IsLine w.headers (length_header w.body ∷ []) h.lines
      (length_header-IsLine w.body, tt)

-- The rounds, the body and the path are no longer than the text.
render_headers-length :
    (hs : List Header) (rest : Bytes) → (length hs + length rest ≤ length (render_headers hs rest))
unfolding render_headers
render_headers-length [] rest = omega arith
render_headers-length ((key, value) ∷ hs) rest =
    omega (arith, render_headers-length hs rest, length-header key value (render_headers hs rest))

render-length :
    (w : Wire) (rest : Bytes)
    → length w.path + 10 + length (render_headers (all_headers w) (w.body ++ rest))
      ≤ length (render w rest)
unfolding render
render-length w rest =
    let tail = render_headers (all_headers w) (w.body ++ rest) in
    omega (
      arith,
      length-append (method_to_string w.method)
          (b' ' ∷ (w.path ++ (codes " HTTP/1.1" ++ (crlf ++ tail)))),
      length-append w.path (codes " HTTP/1.1" ++ (crlf ++ tail)),
    )

-- A text that is not empty.
pub split : (w rest : Bytes) → w ≢ [] → (c : ℕ) × (cs : Bytes) × (w ++ rest ≡ c ∷ cs)
split [] rest n = absurd (n refl)
split (c ∷ cs) rest n = (c, cs ++ rest, refl)

IsPath-ne-nil : (path : Bytes) → IsPath path → path ≢ []
IsPath-ne-nil path (rest, e, h) k = cc

module _ {S : Type 0} (io : Stream S) where
  -- When the first chunk of the stream is a request on the wire, with whatever follows it: the method is GET or POST,
  -- the path is a slash and path characters, has none of space, colon, CR and LF, and is one that
  -- `CleanPath` takes; the headers, none of them Content-Length, have keys and values of the characters of
  -- either, none empty, and no value starts with a space; and the body's length is an `int`. Then the
  -- synchronous parser gives 0 on fuel that is more than the length of the chunk, and the request reads as
  -- the one that was sent, with the clean path.
  pub parse_http_request-render :
      (w : Wire) (clean rest garbage : Bytes) (s : S) (stream : StreamRef) (fuel : ℕ)
      → IsWire w
      → IsPlainWire w
      → clean_path w.path ≡ some clean
      → length garbage ≡ buffer_size
      → (io.read s buffer_size).0 ≡ received (render w rest)
      → length (render w rest) < fuel
      → (q : RequestParser S) × (parse_http_request io fuel s garbage (empty_request stream)
          ≡ returned (0, q))
        × Reads (record w { path = clean }) q.request
  unfolding parse_http_request parse render
  parse_http_request-render w clean rest garbage s stream zero h k e g i f = absurd (omega arith)
  parse_http_request-render w clean rest garbage s stream (suc zero) h k e g i f =
      absurd (omega (arith, render-length w rest))
  parse_http_request-render w clean rest garbage s stream (suc (suc n)) h k e g i f =
      let fuel = suc (suc n) in
      let w' : Wire = record w { path = clean } in
      let r0 : HttpRequest = line_of w' (empty_request stream) in
      let tail = render_headers (all_headers w) (w.body ++ rest) in
      let within = io.read_within s buffer_size (render w rest) i in
      let long = render-length w rest in
      let rounds = render_headers-length (all_headers w) (w.body ++ rest) in
      let body = length-append w.body rest in
      let (c, cs, first) =
        split (method_to_string w.method) (b' ' ∷ (w.path ++ (codes " HTTP/1.1" ++ (crlf ++ tail))))
          (method-word w.method k.short).0 in
      let ready = flush-Buffers io s garbage c cs g (i ∙ ap received first) in
      let p = Token.create (flush io (Reader.create s garbage)) (empty_request stream) in
      let line =
        parse_start_line-Ends io fuel p w.method w.path clean tail
          (record { buffered = c ∷ cs; ready = ready; bytes = first }) k.short
          (IsPath-ne-nil w.path h.path_is) k.path_word e (omega (arith, long, f)) in
      let (r, stored, known) = store_headers-Stored w.headers r0 h.headers_are in
      let all_stored = store_length r0 w.headers w.body stored h.body_fits in
      let m =
        parse_headers-Ends io (all_headers w) fuel fuel line.after (w.body ++ rest) line.at
          (all_headers-IsLine w k)
          (ap (λ x. store_headers x (all_headers w)) line.request ∙ all_stored)
          (omega (arith, long, rounds, f)) (omega (arith, long, f)) in
      let t =
        parse_rest-Parsed io n m.after w.body rest m.at m.spent
          (ap (λ (x : HttpRequest). x.content_length) m.request)
          (ap (λ (x : HttpRequest). x.body) m.request ∙ known.line.body_same)
          (omega (arith, long, rounds, within, body)) in
      (
        t.after,
        ap (λ x. x >>= after_start_line io fuel)
              (sym (start_full io fuel s garbage (empty_request stream) c cs ready) ∙ line.result)
            ∙ ap (λ x. x >>= after_headers io fuel) m.result
            ∙ t.result,
        Stored-Reads w' stream known (
            t.request
            ∙ ap (λ (x : HttpRequest). let q : HttpRequest = record x { body = w.body } in q)
                m.request),
      )
