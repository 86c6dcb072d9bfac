-- ===== src/Sync/StartLine.antt =====
-- The request line of the synchronous parser: minet/src/utils/Parser.cpp.
use minet_core.Prelude.{
  ℕ, ◌+◌, ◌<◌, true, [], ◌∷◌, ◌++◌, ◌≡◌, ◌≢◌, ◌⊎◌, inl, inr, refl, ap, ◌∙◌, arith, Bytes, codes,
  length, all, equal, equal_iff, some, if◌then◌else◌,
}
use minet_core.Http.{HttpMethod, HttpVersion, method_to_string}
use minet_core.Path.{clean_path}
use minet_core.Request.{HttpRequest}
use minet_core.Io.Stream.{Stream}
use minet_core.Async.Wire.{crlf}
use minet_core.Sync.Calls.{returned}
use minet_core.Sync.Token.{TokenType, RequestToken, RequestParser}
use minet_core.Sync.{
  ParseStatus, short_method, expect, with_method, with_path, with_version, parse_start_line,
  Parsing,
}
use minet_core.Sync.Steps.{At, in_string, next_token-space, next_token-new_line, next_token-word}
use minet_core.Sync.Headers.{Ends, expect-Leaves}

-- The methods that the synchronous parser knows.
abbrev pub IsShort : HttpMethod → Type 0
IsShort m = (m ≡ HttpMethod.get) ⊎ (m ≡ HttpMethod.post)

pub method-word :
    (m : HttpMethod)
    → IsShort m
    → (method_to_string m ≢ [])
      × (all (in_string (codes " :\r\n")) (method_to_string m) ≡ true)
      × (short_method (method_to_string m) ≡ some m)
      × (length (method_to_string m) < 5)
unfolding method_to_string equal
method-word m (inl e) = rw e ((λ x. cc), refl, refl, omega arith)
method-word m (inr e) = rw e ((λ x. cc), refl, refl, omega arith)

-- The request after the line.
abbrev pub line_request : HttpMethod → Bytes → HttpRequest → HttpRequest
line_request m path r = record r { method = m; path = path; version = HttpVersion.http_1_1 }

module _ {S : Type 0} (io : Stream S) where
  pub parse_start_line-Ends :
      (fuel : ℕ) (p : RequestParser S) (m : HttpMethod) (path clean rest : Bytes)
      → At (method_to_string m ++ (b' ' ∷ (path ++ (codes " HTTP/1.1" ++ (crlf ++ rest))))) p
      → IsShort m
      → path ≢ []
      → all (in_string (codes " :\r\n")) path ≡ true
      → clean_path path ≡ some clean
      → length path + 10 < fuel
      → Ends io rest ParseStatus.ok (line_request m clean p.request) (parse_start_line io fuel p)
  unfolding parse_start_line
  parse_start_line-Ends fuel p m path clean rest a short some_path word cleaned f =
      let (some_method, method_chars, method_is, small) = method-word m short in
      let version = codes "HTTP/1.1" in
      let l1 =
        next_token-word io (method_to_string m) fuel b' '
          (path ++ (codes " HTTP/1.1" ++ (crlf ++ rest))) p a some_method method_chars refl refl
          (omega arith) in
      let p1 : RequestParser S = record (l1.after) {
        request = record (l1.after.request) { method = m };
      } in
      let l2 =
        next_token-space io fuel p1 (path ++ (codes " HTTP/1.1" ++ (crlf ++ rest)))
          (record { buffered = l1.at.buffered; ready = l1.at.ready; bytes = l1.at.bytes }) in
      let l3 =
        next_token-word io path fuel b' ' (version ++ (crlf ++ rest)) l2.after l2.at some_path word
          refl refl (omega arith) in
      let p3 : RequestParser S = record (l3.after) {
        request = record (l3.after.request) { path = clean };
      } in
      let l4 =
        next_token-space io fuel p3 (version ++ (crlf ++ rest))
          (record { buffered = l3.at.buffered; ready = l3.at.ready; bytes = l3.at.bytes }) in
      let l5 =
        next_token-word io version fuel b'\r' (b'\n' ∷ rest) l4.after l4.at (λ x. cc) refl refl refl
          (omega arith) in
      let p5 : RequestParser S = record (l5.after) {
        request = record (l5.after.request) { version = HttpVersion.http_1_1 };
      } in
      let (l6, z) =
        next_token-new_line io fuel p5 rest
          (record { buffered = l5.at.buffered; ready = l5.at.ready; bytes = l5.at.bytes }) in
      let k6 : RequestParser S → Parsing io = λ p. returned (ParseStatus.ok, p) in
      let k5 : RequestParser S → Parsing io =
        λ p. with_version io p λ p. expect io fuel TokenType.new_line p k6 in
      let k4 : RequestParser S → Parsing io = λ p. expect io fuel TokenType.string p k5 in
      let k3 : RequestParser S → Parsing io = λ p. expect io fuel TokenType.space p k4 in
      let k2 : RequestParser S → Parsing io = λ p. with_path io p (clean_path p.current.value) k3 in
      let k1 : RequestParser S → Parsing io = λ p. expect io fuel TokenType.string p k2 in
      let k0 : RequestParser S → Parsing io = λ p. expect io fuel TokenType.space p k1 in
      record {
        after = l6.after;
        result =
            expect-Leaves io fuel TokenType.string p
              (λ p. with_method io p (short_method p.current.value) k0) l1 refl
            ∙ ap (λ (t : RequestToken). with_method io l1.after (short_method t.value) k0) l1.token
            ∙ ap (λ o. with_method io l1.after o k0) method_is
            ∙ expect-Leaves io fuel TokenType.space p1 k1 l2 refl
            ∙ expect-Leaves io fuel TokenType.string l2.after k2 l3 refl
            ∙ ap (λ (t : RequestToken). with_path io l3.after (clean_path t.value) k3) l3.token
            ∙ ap (λ o. with_path io l3.after o k3) cleaned
            ∙ expect-Leaves io fuel TokenType.space p3 k4 l4 refl
            ∙ expect-Leaves io fuel TokenType.string l4.after k5 l5 refl
            ∙ ap
                (λ (t : RequestToken).
                  if equal t.value version
                  then expect io fuel TokenType.new_line p5 k6
                  else returned (ParseStatus.error, l5.after))
                l5.token
            ∙ ap
                (λ b.
                  if b
                  then expect io fuel TokenType.new_line p5 k6
                  else returned (ParseStatus.error, l5.after))
                ((equal_iff version version).1 refl)
            ∙ expect-Leaves io fuel TokenType.new_line p5 k6 l6 refl;
        at = l6.at;
        spent = z;
        request =
            l6.request
            ∙ ap
                (λ (r : HttpRequest).
                  let q : HttpRequest = record r { version = HttpVersion.http_1_1 } in q)
                (l5.request ∙ l4.request)
            ∙ ap
                (λ (r : HttpRequest).
                  let q : HttpRequest = record r { path = clean; version = HttpVersion.http_1_1 } in
                  q)
                (l3.request ∙ l2.request)
            ∙ ap (line_request m clean) l1.request;
      }
