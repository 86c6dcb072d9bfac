-- ===== src/Sync/Rejects.antt =====
-- What the synchronous parser of minet/src/utils/Parser.cpp does not take.
use minet_core.Prelude.{
  ℕ, ◌≤◌, ◌<◌, true, [], ◌∷◌, ◌++◌, ◌≡◌, ◌≢◌, inl, inr, refl, sym, ap, ◌∙◌, arith, Bytes, codes,
  length, all, equal, none,
}
use minet_core.Http.{HttpMethod, method_to_string}
use minet_core.Path.{clean_path}
use minet_core.Request.{StreamRef, empty_request}
use minet_core.Io.Stream.{Stream, received}
use minet_core.Io.Reader
use minet_core.Io.Reader.{buffer_size, flush}
use minet_core.Io.Reader.Buffered.{flush-Buffers}
use minet_core.Async.Wire.{Wire, render, crlf, render_headers, all_headers}
use minet_core.Sync.Calls.{returned, ◌>>=◌}
use minet_core.Sync.Token
use minet_core.Sync.Token.{RequestParser, RequestToken, TokenType}
use minet_core.Sync.{
  ParseStatus, Parsing, short_method, expect, with_method, with_path, with_version,
  parse_start_line, after_start_line, parse, parse_http_request,
}
use minet_core.Sync.Steps.{in_string, next_token-word}
use minet_core.Sync.Headers.{expect-Leaves}
use minet_core.Sync.StartLine.{IsShort}
use minet_core.Sync.RoundTrip.{split, start_full}

other-word :
    (m : HttpMethod)
    → ¬ IsShort m
    → (method_to_string m ≢ [])
      × (all (in_string (codes " :\r\n")) (method_to_string m) ≡ true)
      × (short_method (method_to_string m) ≡ none)
      × (length (method_to_string m) < 20)
unfolding method_to_string equal
other-word HttpMethod.get n = absurd (n (inl refl))
other-word HttpMethod.post n = absurd (n (inr refl))
other-word HttpMethod.put n = ((λ x. cc), refl, refl, omega arith)
other-word HttpMethod.delete n = ((λ x. cc), refl, refl, omega arith)
other-word HttpMethod.head n = ((λ x. cc), refl, refl, omega arith)
other-word HttpMethod.options n = ((λ x. cc), refl, refl, omega arith)
other-word HttpMethod.trace n = ((λ x. cc), refl, refl, omega arith)
other-word HttpMethod.patch n = ((λ x. cc), refl, refl, omega arith)
other-word HttpMethod.invalid n = ((λ x. cc), refl, refl, omega arith)

module _ {S : Type 0} (io : Stream S) where
  -- When the first chunk of the stream is a request whose method is not GET or POST, the synchronous
  -- parser gives 2.
  pub parse_http_request-other_method :
      (w : Wire) (rest garbage : Bytes) (s : S) (stream : StreamRef) (fuel : ℕ)
      → ¬ IsShort w.method
      → length garbage ≡ buffer_size
      → (io.read s buffer_size).0 ≡ received (render w rest)
      → 20 ≤ fuel
      → (q : RequestParser S) × (parse_http_request io fuel s garbage (empty_request stream)
          ≡ returned (2, q))
  unfolding parse_http_request parse parse_start_line render
  parse_http_request-other_method w rest garbage s stream fuel other g i f =
      let (some_method, method_chars, no_method, small) = other-word w.method other in
      let tail =
        w.path
        ++ (codes " HTTP/1.1" ++ (crlf ++ render_headers (all_headers w) (w.body ++ rest))) in
      let (c, cs, first) = split (method_to_string w.method) (b' ' ∷ tail) some_method in
      let ready = flush-Buffers io s garbage c cs g (i ∙ ap received first) in
      let p = Token.create (flush io (Reader.create s garbage)) (empty_request stream) in
      let l =
        next_token-word io (method_to_string w.method) fuel b' ' tail p
          (record { buffered = c ∷ cs; ready = ready; bytes = first }) some_method method_chars refl
          refl (omega arith) in
      let then_space : RequestParser S → Parsing io = λ p. expect io fuel TokenType.space p λ p.
        expect io fuel TokenType.string p λ p. with_path io p (clean_path p.current.value) λ p.
          expect io fuel TokenType.space p λ p. expect io fuel TokenType.string p λ p.
            with_version io p
              λ p. expect io fuel TokenType.new_line p λ p. returned (ParseStatus.ok, p) in
      (
        l.after,
        ap (λ x. x >>= after_start_line io fuel)
            (sym (start_full io fuel s garbage (empty_request stream) c cs ready)
              ∙ expect-Leaves io fuel TokenType.string p
                  (λ p. with_method io p (short_method p.current.value) then_space) l refl
              ∙ ap (λ (t : RequestToken). with_method io l.after (short_method t.value) then_space)
                  l.token
              ∙ ap (λ o. with_method io l.after o then_space) no_method),
      )
