-- ===== src/Sync.antt =====
-- The synchronous request parser: `RequestParser` of minet/src/utils/Parser.cpp, over a buffered
-- reader on any stream.
pub mod Calls
pub mod Token
pub mod Steps
pub mod Headers
pub mod StartLine
pub mod RoundTrip
pub mod Rejects
pub mod Context
mod Tests
use minet_core.Prelude.{
  ℕ, zero, suc, ◌+◌, ◌-◌, Bool, true, false, ◌||◌, [], ◌∷◌, ◌++◌, Option, none, some, ltb, ◌==◌,
  if◌then◌else◌, Bytes, codes, length, drop, equal, bytes_eq,
}
use minet_core.Prelude.Int.{ℤ, pos, negsuc, is_positive, is_pos}
use minet_core.Prelude.Map.{insert}
use minet_core.Prelude.Result.{Result}
use minet_core.Http.{HttpMethod, HttpVersion}
use minet_core.Path.{clean_path}
use minet_core.Request.{HttpRequest}
use minet_core.Stoi.{stoi}
use minet_core.Io.Stream.{Stream}
use minet_core.Io.Reader
use minet_core.Io.Reader.{Reader, read_block}
use minet_core.Sync.Calls.{Outcome, returned, thrown, undefined, out_of_fuel, ◌>>=◌, lift}
use minet_core.Sync.Token.{
  RequestToken, TokenType, type_beq, RequestParser, next_token, next_string,
}

-- `ParseStatus`
pub data ParseStatus : Type 0 where
  ok not_match error : ParseStatus

-- The first method names that are tried; no other is supported.
abbrev pub short_method : Bytes → Option HttpMethod
short_method s =
    if equal s (codes "GET")
    then some HttpMethod.get
    else if equal s (codes "POST")
    then some HttpMethod.post
    else none

-- The `if` on the key of a header.
unfoldable pub store : HttpRequest → Bytes → Bytes → Outcome HttpRequest
store r key value =
    if equal key (codes "Content-Type")
    then returned (record r { content_type = value })
    else if equal key (codes "Content-Length")
    then (do n ← lift (stoi value); returned (record r { content_length = n }))
    else if equal key (codes "Host")
    then returned (record r { host = value })
    else returned (record r { headers = insert key value r.headers })

-- `resize` of the body.
abbrev pub resize : ℕ → Bytes → Bytes
resize zero bs = []
resize (suc n) [] = 0 ∷ resize n []
resize (suc n) (b ∷ bs) = b ∷ resize n bs

module _ {S : Type 0} (io : Stream S) where
  -- A function that returns a status, with the parser after it.
  abbrev pub Parsing : Type 0
  Parsing = Outcome (ParseStatus × RequestParser S)

  -- `if (_currentToken.Type != ...) return ParseStatus::Error;`
  abbrev pub require : TokenType → RequestParser S → (RequestParser S → Parsing) → Parsing
  require t p next = if type_beq p.current.type t then next p else returned (error, p)

  -- `_NextToken()` and then the test
  abbrev pub expect : ℕ → TokenType → RequestParser S → (RequestParser S → Parsing) → Parsing
  expect fuel t p next = do q ← next_token io fuel p; require t q next

  -- The method, from the token
  abbrev pub with_method :
      RequestParser S → Option HttpMethod → (RequestParser S → Parsing) → Parsing
  with_method p none next = returned (error, p)
  with_method p (some m) next = next (record p { request = record (p.request) { method = m } })

  -- The path, from the token
  abbrev pub with_path : RequestParser S → Option Bytes → (RequestParser S → Parsing) → Parsing
  with_path p none next = undefined
  with_path p (some path) next = next (record p { request = record (p.request) { path = path } })

  -- The version, from the token
  abbrev pub with_version : RequestParser S → (RequestParser S → Parsing) → Parsing
  with_version p next =
      if equal p.current.value (codes "HTTP/1.1")
      then next (record p { request = record (p.request) { version = HttpVersion.http_1_1 } })
      else returned (error, p)

  -- `_ParseStartLine`
  unfoldable pub parse_start_line : ℕ → RequestParser S → Parsing
  parse_start_line fuel p = expect fuel TokenType.string p λ p.
      with_method p (short_method p.current.value) λ p. expect fuel TokenType.space p λ p.
        expect fuel TokenType.string p λ p. with_path p (clean_path p.current.value) λ p.
          expect fuel TokenType.space p λ p.
            expect fuel TokenType.string p
              λ p. with_version p λ p. expect fuel TokenType.new_line p λ p. returned (ok, p)

  -- What follows the value of a header.
  abbrev pub end_header : ℕ → RequestParser S → Bytes → Parsing
  end_header fuel p key = do
    r ← store p.request key p.current.value
    expect fuel TokenType.new_line (record p { request = r }) λ p. returned (ok, p)

  -- What follows the key of a header.
  abbrev pub parse_value : ℕ → RequestParser S → Bytes → Parsing
  parse_value fuel p key = expect fuel TokenType.colon p λ p.
      expect fuel TokenType.space p
        λ p. do q ← next_string io fuel p; require TokenType.string q λ p. end_header fuel p key

  abbrev pub after_key : ℕ → RequestParser S → Parsing
  after_key fuel p =
      if type_beq p.current.type TokenType.string
      then parse_value fuel p p.current.value
      else if type_beq p.current.type TokenType.new_line
      then returned (not_match, p)
      else returned (error, p)

  -- `_ParseHeader`
  unfoldable pub parse_header : ℕ → RequestParser S → Parsing
  parse_header fuel p = do q ← next_token io fuel p; after_key fuel q

  -- The loop over the headers, on the fuel that it shares with the loops inside.
  abbrev pub after_header : Parsing → (RequestParser S → Parsing) → Parsing
  after_header m again = do
    (s, q) ← m
    elim s [ ok ↦ again q | not_match ↦ returned (not_match, q) | error ↦ returned (error, q) ]

  unfoldable pub parse_headers : ℕ → ℕ → RequestParser S → Parsing
  parse_headers zero fuel p = out_of_fuel
  parse_headers (suc rounds) fuel p =
      after_header (parse_header fuel p) (λ q. parse_headers rounds fuel q)

  -- The end of `_ParseBody`. More bytes than there is room for is undefined.
  abbrev pub after_body : RequestParser S → ℕ → Option (ℤ × Bytes × Reader S) → Parsing
  after_body p n none = out_of_fuel
  after_body p n (some (size, out, r)) =
      let body = out ++ drop (length out) (resize n p.request.body) in
      if ltb n (length out)
      then undefined
      else returned (
        (if is_pos size n then ok else error),
        record p { reader = r; request = record (p.request) { body = body } },
      )

  -- `_ParseBody`, where ContentLength is positive
  unfoldable pub parse_body : ℕ → RequestParser S → ℕ → Parsing
  parse_body fuel p n = after_body p n (read_block io fuel p.reader n)

  -- The end of `Parse`, where the length is positive: the limit, and the body.
  abbrev pub parse_rest : ℕ → RequestParser S → ℤ → Outcome (ℕ × RequestParser S)
  parse_rest fuel p (negsuc n) = returned (0, p)
  parse_rest fuel p (pos n) =
      if n == 0 then returned (0, p) else if ltb 4096 n then returned (4, p) else (do
        (s, q) ← parse_body fuel p n
        elim s [ ok ↦ returned (0, q) | not_match ↦ returned (5, q) | error ↦ returned (5, q) ])

  abbrev pub after_headers : ℕ → ParseStatus × RequestParser S → Outcome (ℕ × RequestParser S)
  after_headers fuel (s, p) = elim s [
    | ok ↦ parse_rest fuel p p.request.content_length
    | not_match ↦ parse_rest fuel p p.request.content_length
    | error ↦ returned (3, p)
  ]

  abbrev pub after_start_line : ℕ → ParseStatus × RequestParser S → Outcome (ℕ × RequestParser S)
  after_start_line fuel (s, p) =
      let headers = parse_headers fuel fuel p >>= after_headers fuel in
      elim s [ ok ↦ headers | not_match ↦ returned (2, p) | error ↦ returned (2, p) ]

  -- `Parse`
  unfoldable pub parse : ℕ → RequestParser S → Outcome (ℕ × RequestParser S)
  parse fuel p = parse_start_line fuel p >>= after_start_line fuel

  -- `ParseHttpRequest`, on the request's stream. `garbage` is the content of the reader's new buffer.
  unfoldable pub parse_http_request : ℕ → S → Bytes → HttpRequest → Outcome (ℕ × RequestParser S)
  parse_http_request fuel s garbage request =
      parse fuel (Token.create (Reader.create s garbage) request)
