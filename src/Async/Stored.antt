-- ===== src/Async/Stored.antt =====
-- What a list of headers leaves in the request: the end of a value in minet/src/utils/AsyncParser.cpp.
use minet_core.Prelude.{
  true, false, List, [], ◌∷◌, ◌≡◌, refl, ap, ◌∙◌, arith, Bytes, codes, equal, equal_iff, some, All,
  inl, inr, Bool-cases, bytes_eq,
}
use minet_core.Prelude.Map.{find, insert, find-insert}
use minet_core.Prelude.Result.{Result, returned, ◌>>=◌}
use minet_core.Request.{HttpRequest}
use minet_core.Async.Header.{store_header}
use minet_core.Async.Wire.{Header, IsOther, IsPlain, latest}

-- The headers stored one after the other.
unfoldable pub store_headers : HttpRequest → List Header → Result HttpRequest
store_headers r [] = returned r
store_headers r ((key, value) ∷ hs) = do r' ← store_header r key value; store_headers r' hs

-- What headers leave alone.
pub record SameLine (r r' : HttpRequest) : Type 0 where
  pub method_same : r'.method ≡ r.method
  pub path_same : r'.path ≡ r.path
  pub version_same : r'.version ≡ r.version
  pub body_same : r'.body ≡ r.body

-- The effect of headers other than Content-Length.
pub record Stored (hs : List Header) (r r' : HttpRequest) : Type 0 where
  pub line : SameLine r r'
  pub length_same : r'.content_length ≡ r.content_length
  pub host_is : r'.host ≡ latest (λ v. v) (codes "Host") hs r.host
  pub type_is : r'.content_type ≡ latest (λ v. v) (codes "Content-Type") hs r.content_type
  pub headers_are :
      (k : Bytes) → IsPlain k → find k r'.headers ≡ latest some k hs (find k r.headers)

same_line : (r : HttpRequest) → SameLine r r
same_line r = record { method_same = refl; path_same = refl; version_same = refl; body_same = refl }

type-Stored :
    (r : HttpRequest) (key value : Bytes)
    → equal key (codes "Content-Type") ≡ true
    → Stored ((key, value) ∷ []) r (record r { content_type = value })
unfolding latest
type-Stored r key value e = record {
  line = ground arith;
  length_same = refl;
  host_is = ground (arith, equal_iff key (codes "Host"), equal_iff key (codes "Content-Type"));
  type_is = rw e;
  headers_are = λ k p. ground (arith, equal_iff key k, equal_iff key (codes "Content-Type"));
}

host-Stored :
    (r : HttpRequest) (key value : Bytes)
    → equal key (codes "Host") ≡ true
    → Stored ((key, value) ∷ []) r (record r { host = value })
unfolding latest
host-Stored r key value e = record {
  line = ground arith;
  length_same = refl;
  host_is = rw e;
  type_is = ground (arith, equal_iff key (codes "Host"), equal_iff key (codes "Content-Type"));
  headers_are = λ k p. ground (arith, equal_iff key k, equal_iff key (codes "Host"));
}

map-Stored :
    (r : HttpRequest) (key value : Bytes)
    → equal key (codes "Content-Type") ≡ false
    → equal key (codes "Host") ≡ false
    → Stored ((key, value) ∷ []) r (record r { headers = insert key value r.headers })
unfolding latest
map-Stored r key value not_type not_host = record {
  line = ground arith;
  length_same = refl;
  host_is = rw not_host;
  type_is = rw not_type;
  headers_are = λ k p. find-insert key k value r.headers;
}

SameLine-trans : {a b c : HttpRequest} → SameLine a b → SameLine b c → SameLine a c
SameLine-trans h k = record {
  method_same = k.method_same ∙ h.method_same;
  path_same = k.path_same ∙ h.path_same;
  version_same = k.version_same ∙ h.version_same;
  body_same = k.body_same ∙ h.body_same;
}

Stored-cons :
    {key value : Bytes} {hs : List Header} {a b c : HttpRequest}
    → Stored ((key, value) ∷ []) a b
    → Stored hs b c
    → Stored ((key, value) ∷ hs) a c
unfolding latest
Stored-cons {key} {value} {hs} h k = record {
  line = SameLine-trans h.line k.line;
  length_same = k.length_same ∙ h.length_same;
  host_is = k.host_is ∙ ap (latest (λ v. v) (codes "Host") hs) h.host_is;
  type_is = k.type_is ∙ ap (latest (λ v. v) (codes "Content-Type") hs) h.type_is;
  headers_are = λ n p. k.headers_are n p ∙ ap (latest some n hs) (h.headers_are n p);
}

store_header-Stored :
    (r : HttpRequest) (key value : Bytes)
    → IsOther (key, value)
    → (r' : HttpRequest) × (store_header r key value ≡ returned r')
      × Stored ((key, value) ∷ []) r r'
unfolding store_header latest
store_header-Stored r key value (h, other) =
    elim (Bool-cases (equal key (codes "Content-Length"))) [
      | inl e ↦ absurd (other ((equal_iff key (codes "Content-Length")).0 e))
      | inr no_length ↦ elim (Bool-cases (equal key (codes "Content-Type"))) [
        | inl e ↦ (record r { content_type = value }, rw (no_length, e), type-Stored r key value e)
        | inr no_type ↦ elim (Bool-cases (equal key (codes "Host"))) [
          | inl e ↦
              (record r { host = value }, rw (no_length, no_type, e), host-Stored r key value e)
          | inr no_host ↦ (
            record r { headers = insert key value r.headers },
            rw (no_length, no_type, no_host),
            map-Stored r key value no_type no_host,
          )
        ]
      ]
    ]

pub store_headers-Stored :
    (hs : List Header) (r : HttpRequest)
    → All IsOther hs
    → (r' : HttpRequest) × (store_headers r hs ≡ returned r') × Stored hs r r'
unfolding store_headers latest
store_headers-Stored [] r h = (
  r,
  refl,
  record {
    line = same_line r;
    length_same = refl;
    host_is = refl;
    type_is = refl;
    headers_are = λ k p. refl;
  },
)
store_headers-Stored ((key, value) ∷ hs) r (now, later) =
    let (r', e, s) = store_header-Stored r key value now in
    let (r'', e', s') = store_headers-Stored hs r' later in (r'', rw e e', Stored-cons s s')
