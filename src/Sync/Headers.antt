-- ===== src/Sync/Headers.antt =====
-- The headers and the request line of the synchronous parser: minet/src/utils/Parser.cpp.
use minet_core.Prelude.{
  ℕ, zero, suc, ◌+◌, ◌<◌, Bool, true, false, List, [], ◌∷◌, ◌++◌, ◌≡◌, ◌≢◌, refl, ap, ◌∙◌, arith,
  ◌==◌, if◌then◌else◌, Bytes, codes, length, all, all-imp, All, equal_iff, length-append,
}
use minet_core.Prelude.Result
use minet_core.Prelude.Result.{bind-eq-returned}
use minet_core.Request.{HttpRequest}
use minet_core.Io.Stream.{Stream}
use minet_core.Async.Chars.{is_header_key_char, is_header_value_char}
use minet_core.Async.Header.{store_header}
use minet_core.Async.Wire.{Header, crlf, render_headers}
use minet_core.Async.Stored.{store_headers}
use minet_core.Sync.Calls.{returned, lift, ◌>>=◌}
use minet_core.Sync.Token.{
  TokenType, type_beq, RequestToken, RequestParser, next_token, next_string,
}
use minet_core.Sync.{
  ParseStatus, store, require, expect, parse_value, after_key, end_header, parse_header,
  after_header, parse_headers, Parsing,
}
use minet_core.Sync.Steps.{
  At, Leaves, in_string, next_token-space, next_token-colon, next_token-new_line, next_token-word,
  next_string-string,
}

-- The two parsers do the same with a header.
pub store-store_header : (r : HttpRequest) (k v : Bytes) → store r k v ≡ lift (store_header r k v)
unfolding store store_header
store-store_header r k v = ground (
  arith,
  equal_iff k (codes "Content-Type"),
  equal_iff k (codes "Content-Length"),
  equal_iff k (codes "Host"),
)

-- What the synchronous parser wants of a header besides: a key, and a value that starts with no space.
abbrev pub starts_with_space : Bytes → Bool
starts_with_space [] = false
starts_with_space (c ∷ cs) = c == b' '

abbrev pub IsLine : Header → Type 0
IsLine (key, value) =
    (key ≢ [])
    × (all is_header_key_char key ≡ true)
    × (value ≢ [])
    × (starts_with_space value ≡ false)
    × (all is_header_value_char value ≡ true)

key_char : (c : ℕ) → is_header_key_char c ≡ true → in_string (codes " :\r\n") c ≡ true
unfolding is_header_key_char
key_char c h = ground arith

value_char : (c : ℕ) → is_header_value_char c ≡ true → in_string (codes "\r\n") c ≡ true
unfolding is_header_value_char
value_char c h = ground arith

pub length-header :
    (key value rest : Bytes)
    → length (key ++ (codes ": " ++ (value ++ (crlf ++ rest))))
      ≡ length key + length value + length rest + 4
length-header key value rest = omega (
  arith,
  length-append key (codes ": " ++ (value ++ (crlf ++ rest))),
  length-append value (crlf ++ rest),
)

module _ {S : Type 0} (io : Stream S) where
  -- A call that ends with this status, and leaves these bytes, this request, and nothing given back.
  pub record Ends (bs : Bytes) (s : ParseStatus) (r : HttpRequest) (m : Parsing io) : Type 0 where
    pub after : RequestParser S
    pub result : m ≡ returned (s, after)
    pub at : At bs after
    pub spent : after.next ≡ 0
    pub request : after.request ≡ r

  require_lem :
      (ty : TokenType) (q : RequestParser S) (k : RequestParser S → Parsing io) {t : RequestToken}
      → q.current ≡ t
      → type_beq t.type ty ≡ true
      → require io ty q k ≡ k q
  require_lem ty q k e h =
      ap (λ (x : RequestToken). if type_beq x.type ty then k q else returned (ParseStatus.error, q))
        e
      ∙ rw h refl

  pub expect-Leaves :
      {bs : Bytes} {t : RequestToken} {r : HttpRequest} (fuel : ℕ) (ty : TokenType)
      (p : RequestParser S) (k : RequestParser S → Parsing io)
      (l : Leaves bs t r (next_token io fuel p))
      → type_beq t.type ty ≡ true
      → expect io fuel ty p k ≡ k l.after
  expect-Leaves fuel ty p k l h =
      ap (λ m. m >>= λ q. require io ty q k) l.result ∙ require_lem ty l.after k l.token h

  -- The value of a header, and its line's end.
  end_header-Ends :
      (fuel : ℕ) (p : RequestParser S) (key value rest : Bytes) {r : HttpRequest}
      → At (crlf ++ rest) p
      → p.current ≡ record { type = TokenType.string; value = value }
      → store p.request key value ≡ returned r
      → Ends rest ParseStatus.ok r (end_header io fuel p key)
  end_header-Ends fuel p key value rest {r} a t e =
      let p' : RequestParser S = record p { request = r } in
      let (l, z) =
        next_token-new_line io fuel p' rest
          (record { buffered = a.buffered; ready = a.ready; bytes = a.bytes }) in
      record {
        after = l.after;
        result =
            ap
              (λ (x : RequestToken). store p.request key x.value >>= λ q.
                expect io fuel TokenType.new_line (record p { request = q })
                  λ p. returned (ParseStatus.ok, p))
              t
            ∙ ap
                (λ m. m >>= λ q.
                  expect io fuel TokenType.new_line (record p { request = q })
                    λ p. returned (ParseStatus.ok, p))
                e
            ∙ expect-Leaves fuel TokenType.new_line p' (λ p. returned (ParseStatus.ok, p)) l refl;
        at = l.at;
        spent = z;
        request = l.request;
      }

  next_string-word :
      (w : Bytes) (fuel : ℕ) (rest : Bytes) (p : RequestParser S)
      → At (w ++ (b'\r' ∷ rest)) p
      → w ≢ []
      → starts_with_space w ≡ false
      → all is_header_value_char w ≡ true
      → length w < fuel
      → Leaves
          (b'\r' ∷ rest)
          (record { type = TokenType.string; value = w })
          p.request
          (next_string io fuel p)
  next_string-word [] fuel rest p a n b h f = absurd (n refl)
  next_string-word (c ∷ w) fuel rest p a n b h f =
      next_string-string io c w fuel rest p a b
        (all-imp is_header_value_char (in_string (codes "\r\n")) (c ∷ w) value_char h) f

  -- A header is read and stored.
  pub parse_header-Ends :
      (fuel : ℕ) (p : RequestParser S) (key value rest : Bytes) {r : HttpRequest}
      → At (key ++ (codes ": " ++ (value ++ (crlf ++ rest)))) p
      → IsLine (key, value)
      → store p.request key value ≡ returned r
      → length key + length value < fuel
      → Ends rest ParseStatus.ok r (parse_header io fuel p)
  unfolding parse_header
  parse_header-Ends fuel p key value rest {r} a (some_key, keys, some_value, no_space, values) e f =
      let l1 =
        next_token-word io key fuel b':' (b' ' ∷ (value ++ (crlf ++ rest))) p a some_key
          (all-imp is_header_key_char (in_string (codes " :\r\n")) key key_char keys) refl refl
          (omega arith) in
      let l2 = next_token-colon io fuel l1.after (b' ' ∷ (value ++ (crlf ++ rest))) l1.at in
      let l3 = next_token-space io fuel l2.after (value ++ (crlf ++ rest)) l2.at in
      let l4 =
        next_string-word value fuel (b'\n' ∷ rest) l3.after l3.at some_value no_space values
          (omega arith) in
      let stored : store l4.after.request key value ≡ returned r =
        ap (λ x. store x key value) (l4.request ∙ l3.request ∙ l2.request ∙ l1.request) ∙ e in
      let ends = end_header-Ends fuel l4.after key value rest l4.at l4.token stored in
      record {
        after = ends.after;
        result =
            ap (λ m. m >>= after_key io fuel) l1.result
            ∙ ap
                (λ (x : RequestToken).
                  if type_beq x.type TokenType.string
                  then parse_value io fuel l1.after x.value
                  else if type_beq x.type TokenType.new_line
                  then returned (ParseStatus.not_match, l1.after)
                  else returned (ParseStatus.error, l1.after))
                l1.token
            ∙ expect-Leaves fuel TokenType.colon l1.after _ l2 refl
            ∙ expect-Leaves fuel TokenType.space l2.after _ l3 refl
            ∙ ap (λ m. m >>= λ q. require io TokenType.string q λ p. end_header io fuel p key)
                l4.result
            ∙ require_lem TokenType.string l4.after (λ p. end_header io fuel p key) l4.token refl
            ∙ ends.result;
        at = ends.at;
        spent = ends.spent;
        request = ends.request;
      }

  -- The empty line ends the headers.
  parse_header-end :
      (fuel : ℕ) (p : RequestParser S) (rest : Bytes)
      → At (crlf ++ rest) p
      → Ends rest ParseStatus.not_match p.request (parse_header io fuel p)
  unfolding parse_header
  parse_header-end fuel p rest a =
      let (l, z) = next_token-new_line io fuel p rest a in
      record {
        after = l.after;
        result =
            ap (λ m. m >>= after_key io fuel) l.result
            ∙ ap
                (λ (x : RequestToken).
                  if type_beq x.type TokenType.string
                  then parse_value io fuel l.after x.value
                  else if type_beq x.type TokenType.new_line
                  then returned (ParseStatus.not_match, l.after)
                  else returned (ParseStatus.error, l.after))
                l.token;
        at = l.at;
        spent = z;
        request = l.request;
      }

  -- All headers are read and stored.
  pub parse_headers-Ends :
      (hs : List Header) (rounds fuel : ℕ) (p : RequestParser S) (rest : Bytes) {r : HttpRequest}
      → At (render_headers hs rest) p
      → All IsLine hs
      → store_headers p.request hs ≡ Result.returned r
      → length hs < rounds
      → length (render_headers hs rest) < fuel
      → Ends rest ParseStatus.not_match r (parse_headers io rounds fuel p)
  unfolding parse_headers render_headers store_headers
  parse_headers-Ends hs zero fuel p rest a h e n f = absurd (omega arith)
  parse_headers-Ends [] (suc rounds) fuel p rest a h e n f =
      let l = parse_header-end fuel p rest a in
      record {
        after = l.after;
        result = ap (λ m. after_header io m (λ q. parse_headers io rounds fuel q)) l.result;
        at = l.at;
        spent = l.spent;
        request = l.request ∙ cc;
      }
  parse_headers-Ends ((key, value) ∷ hs) (suc rounds) fuel p rest {r} a (now, later) e n f =
      let (r', e1, e2) =
        bind-eq-returned (store_header p.request key value) (λ q. store_headers q hs) e in
      let size = length-header key value (render_headers hs rest) in
      let l =
        parse_header-Ends fuel p key value (render_headers hs rest) a now
          (store-store_header p.request key value ∙ ap lift e1) (omega (arith, size)) in
      let m =
        parse_headers-Ends hs rounds fuel l.after rest l.at later
          (ap (λ q. store_headers q hs) l.request ∙ e2) (omega arith) (omega (arith, size)) in
      record {
        after = m.after;
        result =
            ap (λ m. after_header io m (λ q. parse_headers io rounds fuel q)) l.result ∙ m.result;
        at = m.at;
        spent = m.spent;
        request = m.request;
      }
