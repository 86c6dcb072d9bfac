-- ===== src/Async/Pieces.antt =====
-- The parser of minet/src/utils/AsyncParser.cpp on one piece of a request, with any `rest` behind it.
use minet_core.Prelude.{
  ℕ, suc, ◌+◌, ◌<◌, Bool, true, false, ◌&&◌, [], ◌∷◌, ◌++◌, ◌≡◌, ◌≢◌, refl, sym, ap, ◌∙◌, arith,
  Bytes, codes, equal, length, all, append-nil, append_assoc, length-append,
}
use mathlib.Core.Path.{subst}
use minet_core.Prelude.Int.{ℤ, pos, is_pos}
use minet_core.Prelude.Result.{returned}
use minet_core.Http.{HttpMethod, HttpVersion, method_from_string, method_to_string}
use minet_core.Request.{HttpRequest}
use minet_core.Async.{Parser, State, create, continue, push, feed_in, feed, body_size}
use minet_core.Async.Chars.{is_alpha, is_path_char, is_header_key_char, is_header_value_char}
use minet_core.Async.Header.{store_header}
use minet_core.Async.Sound.{IsPath}
use minet_core.Async.Run.{complete, after_step, run}
use minet_core.Async.Wire.{IsHeader, crlf}

-- Which characters a state appends to the token.
abbrev pub Pushes : State → (ℕ → Bool) → Type 0
Pushes s class = (p : Parser) (c : ℕ) → class c ≡ true → feed_in s p c ≡ continue (push p c)

pub path-Pushes : Pushes State.path is_path_char
unfolding feed_in is_path_char
path-Pushes p c h = ground arith

pub key-Pushes : Pushes State.header_key is_header_key_char
unfolding feed_in is_header_key_char
key-Pushes p c h = ground arith

pub value-Pushes : Pushes State.header_value is_header_value_char
unfolding feed_in
value-Pushes p c h = ground arith

pub head_true : (a b : Bool) → (a && b) ≡ true → (a ≡ true) × (b ≡ true)
head_true a b h = ground arith

pub run_class :
    (s : State) (class : ℕ → Bool)
    → Pushes s class
    → (xs : Bytes) (p : Parser) (rest : Bytes) → p.handler ≡ s
    → all class xs ≡ true
    → run p (xs ++ rest) ≡ run (record p { token = p.token ++ xs }) rest
unfolding run
run_class s class pushes [] p rest m h = rw append-nil refl
run_class s class pushes (c ∷ cs) p rest m h =
    let (now, later) = head_true (class c) (all class cs) h in
    ap (λ t. after_step t (cs ++ rest) (λ q. run q (cs ++ rest)))
      (subst (λ t. feed_in t p c ≡ continue (push p c)) (sym m) (pushes p c now))
    ∙ run_class s class pushes cs (push p c) rest m later
    ∙ rw append_assoc

pub run_method :
    (m : HttpMethod) (r : HttpRequest) (g : ℤ) (rest : Bytes)
    → m ≢ HttpMethod.invalid
    → run (create r g) (method_to_string m ++ (b' ' ∷ rest))
      ≡ run
          (record (create r g) {
            handler = State.space1;
            token = [];
            request = record r { content_length = pos 0; method = m };
          })
          rest
unfolding run feed_in is_alpha method_from_string method_to_string equal
run_method HttpMethod.get r g rest h = refl
run_method HttpMethod.invalid r g rest h = absurd (h refl)
run_method _ r g rest h = refl

run_slash :
    (p : Parser) (rest : Bytes)
    → p.handler ≡ State.space1
    → run p (b'/' ∷ rest) ≡ run (record (push p b'/') { handler = State.path }) rest
unfolding run feed_in
run_slash p rest h = rw h

pub run_path :
    (p : Parser) (path rest : Bytes)
    → p.handler ≡ State.space1
    → p.token ≡ []
    → IsPath path
    → run p (path ++ rest) ≡ run (record p { handler = State.path; token = path }) rest
run_path p path rest h t (tail, e, a) =
    let (slash, later) = head_true (is_path_char b'/') (all is_path_char tail) (rw e at a) in
    rw e (
      run_slash p (tail ++ rest) h
      ∙ run_class State.path is_path_char path-Pushes tail
          (record (push p b'/') { handler = State.path }) rest refl later
      ∙ ap
          (λ (before : Bytes).
            run (record p { handler = State.path; token = (before ++ (b'/' ∷ [])) ++ tail }) rest)
          t)

pub run_version :
    (p : Parser) (rest : Bytes)
    → p.handler ≡ State.path
    → run p (codes " HTTP/1.1" ++ (crlf ++ rest))
      ≡ run
          (record p {
            handler = State.header_key;
            token = [];
            request = record (p.request) { path = p.token; version = HttpVersion.http_1_1 };
          })
          rest
unfolding run feed_in
run_version p rest h = rw h

pub run_colon :
    (p : Parser) (rest : Bytes)
    → p.handler ≡ State.header_key
    → run p (codes ": " ++ rest)
      ≡ run (record p { handler = State.space3; key = p.token; token = [] }) rest
unfolding run feed_in is_header_key_char
run_colon p rest h = rw h

pub run_first :
    (p : Parser) (c : ℕ) (rest : Bytes)
    → p.handler ≡ State.space3
    → is_header_value_char c ≡ true
    → run p (c ∷ rest) ≡ run (record (push p c) { handler = State.header_value }) rest
unfolding run feed_in
run_first p c rest h k = ground arith

run_value_end :
    (p : Parser) (rest : Bytes) {r : HttpRequest}
    → p.handler ≡ State.header_value
    → store_header p.request p.key p.token ≡ returned r
    → run p (crlf ++ rest)
      ≡ run (record p { handler = State.header_key; token = []; request = r }) rest
unfolding run feed_in is_header_value_char
run_value_end p rest h k = rw h (rw k)

run_value :
    (p : Parser) (value rest : Bytes) {r : HttpRequest}
    → p.handler ≡ State.space3
    → p.token ≡ []
    → value ≢ []
    → all is_header_value_char value ≡ true
    → store_header p.request p.key value ≡ returned r
    → run p (value ++ (crlf ++ rest))
      ≡ run (record p { handler = State.header_key; token = []; request = r }) rest
run_value p [] rest h t ne a k = absurd (ne refl)
run_value p (c ∷ cs) rest h t ne a k =
    let (now, later) = head_true (is_header_value_char c) (all is_header_value_char cs) a in
    run_first p c (cs ++ (crlf ++ rest)) h now
    ∙ run_class State.header_value is_header_value_char value-Pushes cs
        (record (push p c) { handler = State.header_value }) (crlf ++ rest) refl later
    ∙ run_value_end (record p { handler = State.header_value; token = (p.token ++ (c ∷ [])) ++ cs })
        rest refl (rw t k)

pub run_header :
    (p : Parser) (key value rest : Bytes) {r : HttpRequest}
    → p.handler ≡ State.header_key
    → p.token ≡ []
    → IsHeader (key, value)
    → store_header p.request key value ≡ returned r
    → run p (key ++ (codes ": " ++ (value ++ (crlf ++ rest))))
      ≡ run (record p { handler = State.header_key; key = key; token = []; request = r }) rest
run_header p key value rest {r} h t w k =
    run_class State.header_key is_header_key_char key-Pushes key p _ h w.0
    ∙ run_colon (record p { token = p.token ++ key }) _ h
    ∙ run_value (record p { handler = State.space3; key = p.token ++ key; token = [] }) value rest
        refl refl w.1 w.2 (rw t k)
    ∙ ap
        (λ (before : Bytes).
          run
            (record p { handler = State.header_key; key = before ++ key; token = []; request = r })
            rest)
        t

pub run_end :
    (p : Parser) (rest : Bytes)
    → p.handler ≡ State.header_key
    → is_pos p.request.content_length 0 ≡ true
    → run p (crlf ++ rest) ≡ returned (complete (record p { handler = State.done }) rest)
unfolding run feed_in
run_end p rest h k = rw h (rw k)

pub run_end_body :
    (p : Parser) (rest : Bytes)
    → p.handler ≡ State.header_key
    → is_pos p.request.content_length 0 ≡ false
    → run p (crlf ++ rest) ≡ run (record p { handler = State.body }) rest
unfolding run feed_in
run_end_body p rest h k = rw h (rw k)

-- One character of the body, in the middle and at the end.
abbrev pub push_body : HttpRequest → ℕ → HttpRequest
push_body r c = record r { body = r.body ++ (c ∷ []) }

pub feed_body_more :
    (p : Parser) (c : ℕ)
    → suc (length p.request.body) < body_size p.request
    → feed_in State.body p c ≡ returned (pos 0, record p { request = push_body p.request c })
unfolding feed_in
feed_body_more p c h = ground (arith, length-append p.request.body (c ∷ []))

feed_body_last :
    (p : Parser) (c : ℕ)
    → suc (length p.request.body) ≡ body_size p.request
    → feed_in State.body p c
      ≡ returned (pos 1, record p { handler = State.done; request = push_body p.request c })
unfolding feed_in
feed_body_last p c h = ground (arith, length-append p.request.body (c ∷ []))

pub feed-eq : (p : Parser) (s : State) (c : ℕ) → p.handler ≡ s → feed p c ≡ feed_in s p c
feed-eq p s c h = ap (λ t. feed_in t p c) h

pub run_body :
    (xs : Bytes) (p : Parser) (c : ℕ) (rest : Bytes)
    → p.handler ≡ State.body
    → length p.request.body + length (c ∷ xs) ≡ body_size p.request
    → run p ((c ∷ xs) ++ rest)
      ≡ returned (
          complete
            (record p {
              handler = State.done;
              request = record (p.request) { body = p.request.body ++ (c ∷ xs) };
            })
            rest)
unfolding run
run_body [] p c rest h k =
    ap (λ t. after_step t rest (λ q. run q rest))
      (feed-eq p State.body c h ∙ feed_body_last p c (omega arith))
run_body (x ∷ xs) p c rest h k =
    ap (λ t. after_step t ((x ∷ xs) ++ rest) (λ q. run q ((x ∷ xs) ++ rest)))
      (feed-eq p State.body c h ∙ feed_body_more p c (omega arith))
    ∙ run_body xs (record p { request = push_body p.request c }) x rest h
        (omega (arith, length-append p.request.body (c ∷ [])))
    ∙ rw append_assoc
