-- ===== src/Async/Tests.antt =====
-- Runs of the parser of minet/src/utils/AsyncParser.cpp, after tests/AsyncParserTest.cpp, and the
-- theorems at concrete inputs.
use minet_core.Prelude.{[], ◌∷◌, ◌++◌, ◌≡◌, ◌≢◌, refl, arith, Bytes, codes, equal}
use minet_core.Prelude.Int.{pos, negsuc}
use minet_core.Prelude.Map.{insert}
use minet_core.Prelude.Result.{returned, thrown, Exception}
use minet_core.Http.{HttpMethod, HttpVersion, method_from_string}
use minet_core.Request.{empty_request}
use minet_core.Stoi.{stoi}
use minet_core.Async.{Parser, State, create, feed_in}
use minet_core.Async.Chars.{is_alpha, is_path_char, is_header_key_char, is_header_value_char}
use minet_core.Async.Header.{store_header}
use minet_core.Async.Run.{more, complete, failed, run}
use minet_core.Async.Sound.{IsComplete, run-IsComplete, run-never-failed}
use minet_core.Async.Wire.{Wire, IsWire, IsHeader, Reads, render, render_line, render_headers}
use minet_core.Async.Throws.{run-bad_length}
use minet_core.Async.Chunks.{run-append_error, run-negative_length}
use minet_core.Async.RoundTrip.{run-render}

abbrev post : Wire
post = record {
  method = HttpMethod.post;
  path = codes "/some/resource";
  headers =
      (codes "Host", codes "localhost:8080")
      ∷ (codes "Accept", codes "*/*")
      ∷ (codes "Content-Type", codes "application/json")
      ∷ [];
  body = codes "{\"key\": \"value\"}";
}

abbrev fresh : Parser
fresh = create (empty_request 3) (negsuc 4)

-- The bytes of the first chunk of a request with a bad method.
abbrev bad : Bytes
bad = codes "FETCH "

abbrev text : Bytes
text = codes "GET /a HTTP/1.1\r\nHost: b\r\nAge: 1\r\nAge: 2\r\n\r\n"

-- The parser when the text has been read.
abbrev finished : Parser
finished = record fresh {
  handler = State.done;
  key = codes "Age";
  request = record (empty_request 3) {
    method = HttpMethod.get;
    version = HttpVersion.http_1_1;
    path = codes "/a";
    host = codes "b";
    headers = (codes "Age", codes "2") ∷ [];
  };
}

run-text : run fresh text ≡ returned (complete finished [])
unfolding run feed_in is_alpha is_path_char is_header_key_char is_header_value_char
    method_from_string store_header insert equal stoi
run-text = refl

abbrev rejected : Parser
rejected = record fresh {
  handler = State.error;
  error = pos 11;
  request = record (empty_request 3) { method = HttpMethod.invalid };
}

run-bad : run fresh bad ≡ returned (more rejected)
unfolding run feed_in is_alpha method_from_string equal
run-bad = refl

stoi_tests :
    (stoi (codes " +12ab") ≡ returned (pos 12))
    × (stoi (codes "-5") ≡ returned (negsuc 4))
    × (stoi (codes "x") ≡ thrown Exception.invalid_argument)
    × (stoi (codes "2147483648") ≡ thrown Exception.out_of_range)
unfolding stoi
stoi_tests = (refl, refl, refl, refl)

run-IsComplete_example : IsComplete finished.request
run-IsComplete_example = run-IsComplete 3 (negsuc 4) text [] run-text

run-never-failed_example : run fresh bad ≢ returned (failed (negsuc 10) rejected [])
run-never-failed_example = run-never-failed 3 (negsuc 4) bad [] (negsuc 10) rejected

post-IsWire : IsWire post
unfolding is_path_char is_header_key_char is_header_value_char
post-IsWire = record {
  method_known = λ e. cc;
  path_is = (codes "some/resource", refl, refl);
  headers_are = (
    ((refl, λ e. cc, refl), λ e. cc),
    (((refl, λ e. cc, refl), λ e. cc), (((refl, λ e. cc, refl), λ e. cc), tt)),
  );
  body_fits = omega arith;
}

run-render_example :
    (q : Parser) × (run fresh (render post (codes "GET")) ≡ returned (complete q (codes "GET")))
    × Reads post q.request
run-render_example = run-render post 3 (negsuc 4) (codes "GET") post-IsWire

stoi_x : stoi (codes "x") ≡ thrown Exception.invalid_argument
unfolding stoi
stoi_x = refl

length_x-IsHeader : IsHeader (codes "Content-Length", codes "x")
unfolding is_header_key_char is_header_value_char
length_x-IsHeader = (refl, λ e. cc, refl)

run-bad_length_example :
    run fresh (
      render_line post
        (render_headers (post.headers ++ ((codes "Content-Length", codes "x") ∷ [])) []))
    ≡ thrown Exception.invalid_argument
run-bad_length_example =
    run-bad_length post 3 (negsuc 4) (codes "x") [] [] Exception.invalid_argument post-IsWire
      length_x-IsHeader stoi_x

run-append_error_example : run fresh (bad ++ codes "GET /a HTTP/1.1") ≡ returned (more rejected)
run-append_error_example = run-append_error 3 (negsuc 4) bad (codes "GET /a HTTP/1.1") run-bad refl

-- The head of a request with a negative length, and the parser after it.
abbrev endless_head : Bytes
endless_head = codes "GET /a HTTP/1.1\r\nContent-Length: -1\r\n\r\n"

abbrev endless : Parser
endless = record fresh {
  handler = State.body;
  key = codes "Content-Length";
  request = record (empty_request 3) {
    method = HttpMethod.get;
    version = HttpVersion.http_1_1;
    path = codes "/a";
    content_length = negsuc 0;
  };
}

run-endless_head : run fresh endless_head ≡ returned (more endless)
unfolding run feed_in is_alpha is_path_char is_header_key_char is_header_value_char
    method_from_string store_header insert equal stoi
run-endless_head = refl

run-negative_length_example :
    run endless (codes "abc")
    ≡ returned (more (record endless { request = record (endless.request) { body = codes "abc" } }))
run-negative_length_example =
    run-negative_length (codes "abc") endless 0 refl refl (omega arith) (omega arith)
