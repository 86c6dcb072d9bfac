-- ===== src/Async/Wire.antt =====
-- The text of a request on the wire, as a reference for the parser of
-- minet/src/utils/AsyncParser.cpp.
use minet_core.Prelude.{
  ◌≤◌, true, List, [], ◌∷◌, ◌++◌, ◌≡◌, ◌≢◌, Bytes, codes, all, All, length, equal, if◌then◌else◌,
  none, some, bytes_eq,
}
use minet_core.Prelude.Int.{pos}
use minet_core.Prelude.Map.{find}
use minet_core.Stoi.{to_string, int_max}
use minet_core.Http.{HttpMethod, HttpVersion, method_to_string}
use minet_core.Request.{HttpRequest}
use minet_core.Async.Chars.{is_header_key_char, is_header_value_char}
use minet_core.Async.Sound.{IsPath}

-- A header's key and value.
abbrev pub Header : Type 0
Header = Bytes × Bytes

-- The headers of `headers` are sent in order, and Content-Length behind them.
pub record Wire : Type 0 where
  pub method : HttpMethod
  pub path : Bytes
  pub headers : List Header
  pub body : Bytes

abbrev pub crlf : Bytes
crlf = b'\r' ∷ b'\n' ∷ []

abbrev pub length_header : Bytes → Header
length_header body = (codes "Content-Length", to_string (length body))

abbrev pub all_headers : Wire → List Header
all_headers w = w.headers ++ (length_header w.body ∷ [])

-- Each piece stands in front of what follows it.
unfoldable pub render_headers : List Header → Bytes → Bytes
render_headers [] rest = crlf ++ rest
render_headers ((key, value) ∷ hs) rest =
    key ++ (codes ": " ++ (value ++ (crlf ++ render_headers hs rest)))

-- The request line, in front of what follows it.
abbrev pub render_line : Wire → Bytes → Bytes
render_line w tail =
    method_to_string w.method ++ (b' ' ∷ (w.path ++ (codes " HTTP/1.1" ++ (crlf ++ tail))))

unfoldable pub render : Wire → Bytes → Bytes
render w rest = render_line w (render_headers (all_headers w) (w.body ++ rest))

-- The key is not Content-Length, the characters are allowed, and the value is not empty.
abbrev pub IsHeader : Header → Type 0
IsHeader (key, value) =
    (all is_header_key_char key ≡ true) × (value ≢ []) × (all is_header_value_char value ≡ true)

abbrev pub IsOther : Header → Type 0
IsOther (key, value) = IsHeader (key, value) × (key ≢ codes "Content-Length")

pub record IsWire (w : Wire) : Type 0 where
  pub method_known : w.method ≢ HttpMethod.invalid
  pub path_is : IsPath w.path
  pub headers_are : All IsOther w.headers
  pub body_fits : length w.body ≤ int_max

-- A key that the request has no field for.
abbrev pub IsPlain : Bytes → Type 0
IsPlain k = (k ≢ codes "Content-Length") × (k ≢ codes "Content-Type") × (k ≢ codes "Host")

-- The last value sent for a key, or the one from before.
unfoldable pub latest {ℓ} : {A : Type ℓ} → (Bytes → A) → Bytes → List Header → A → A
latest wrap k [] before = before
latest wrap k ((j, v) ∷ hs) before = latest wrap k hs (if equal j k then wrap v else before)

-- What the parser should make of a request on the wire.
pub record Reads (w : Wire) (r : HttpRequest) : Type 0 where
  pub method_is : r.method ≡ w.method
  pub path_is : r.path ≡ w.path
  pub version_is : r.version ≡ HttpVersion.http_1_1
  pub length_is : r.content_length ≡ pos (length w.body)
  pub body_is : r.body ≡ w.body
  pub host_is : r.host ≡ latest (λ v. v) (codes "Host") w.headers []
  pub type_is : r.content_type ≡ latest (λ v. v) (codes "Content-Type") w.headers []
  pub headers_are : (k : Bytes) → IsPlain k → find k r.headers ≡ latest some k w.headers none
