-- ===== src/Sync/Tests.antt =====
-- Runs of the parser of minet/src/utils/Parser.cpp, and its theorems at concrete inputs.
use minet_core.Prelude.{
  ℕ, zero, suc, ◌<◌, sym, [], ◌∷◌, ◌≡◌, inl, inr, refl, arith, Bytes, codes, length, some, ap,
}
use minet_core.Http.{HttpMethod, method_to_string}
use minet_core.Path.{clean_path, pop_slashes}
use minet_core.Stoi.{to_string}
use minet_core.Request.{empty_request}
use minet_core.Io.Stream.{received}
use minet_core.Io.BufferInput
use minet_core.Io.BufferInput.{BufferInputStream, open_buffer, buffer_stream}
use minet_core.Async.Wire.{Wire, IsWire, Reads, render, render_headers}
use minet_core.Async.Chars.{is_path_char, is_header_key_char, is_header_value_char}
use minet_core.Sync.Calls.{returned}
use minet_core.Sync.Token.{RequestParser}
use minet_core.Sync.{parse_http_request}
use minet_core.Sync.RoundTrip.{IsPlainWire, parse_http_request-render}
use minet_core.Sync.Rejects.{parse_http_request-other_method}

abbrev zeros : ℕ → Bytes
zeros zero = []
zeros (suc n) = 0 ∷ zeros n

abbrev post : Wire
post = record {
  method = HttpMethod.post;
  path = codes "/a/";
  headers = (codes "Host", codes "h") ∷ (codes "Accept", codes "*/*") ∷ [];
  body = codes "hello";
}

abbrev text : Bytes
text = codes "POST /a/ HTTP/1.1\r\nHost: h\r\nAccept: */*\r\nContent-Length: 5\r\n\r\nhello"

post-text : render post [] ≡ text
unfolding render render_headers method_to_string to_string
post-text = refl

post-IsWire : IsWire post
unfolding is_path_char is_header_key_char is_header_value_char
post-IsWire = record {
  method_known = λ e. cc;
  path_is = (codes "a/", refl, refl);
  headers_are = (((refl, (λ e. cc), refl), λ e. cc), (((refl, (λ e. cc), refl), λ e. cc), tt));
  body_fits = omega arith;
}

post-IsPlainWire : IsPlainWire post
unfolding is_header_key_char is_header_value_char
post-IsPlainWire = record {
  short = inr refl;
  path_word = refl;
  lines =
      (((λ e. cc), refl, (λ e. cc), refl, refl), (((λ e. cc), refl, (λ e. cc), refl, refl), tt));
}

post-clean : clean_path (codes "/a/") ≡ some (codes "/a")
unfolding clean_path pop_slashes
post-clean = refl

abbrev given : BufferInputStream
given = open_buffer text

post-received : (buffer_stream.read given 1024).0 ≡ received (render post [])
unfolding BufferInput.read
post-received = ap received (sym post-text)

post-fuel : length (render post []) < 100
post-fuel = omega (arith, ap length post-text)

parse_http_request-render_example :
    (q : RequestParser BufferInputStream) × (parse_http_request buffer_stream 100 given
        (zeros 1024)
        (empty_request 3)
      ≡ returned (0, q))
    × Reads (record post { path = codes "/a" }) q.request
parse_http_request-render_example =
    parse_http_request-render buffer_stream post (codes "/a") [] (zeros 1024) given 3 100
      post-IsWire post-IsPlainWire post-clean refl post-received post-fuel

abbrev put : Wire
put = record { method = HttpMethod.put; path = codes "/"; headers = []; body = [] }

abbrev put_text : Bytes
put_text = codes "PUT / HTTP/1.1\r\nContent-Length: 0\r\n\r\n"

put-text : render put [] ≡ put_text
unfolding render render_headers method_to_string to_string
put-text = refl

put-received : (buffer_stream.read (open_buffer put_text) 1024).0 ≡ received (render put [])
unfolding BufferInput.read
put-received = ap received (sym put-text)

parse_http_request-other_method_example :
    (q : RequestParser BufferInputStream) × (parse_http_request buffer_stream 20
        (open_buffer put_text)
        (zeros 1024)
        (empty_request 3)
      ≡ returned (2, q))
parse_http_request-other_method_example =
    parse_http_request-other_method buffer_stream put [] (zeros 1024) (open_buffer put_text) 3 20
      (elim [ inl e ↦ cc | inr e ↦ cc ]) refl put-received (omega arith)
