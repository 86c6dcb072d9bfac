-- ===== src/Http.antt =====
-- HTTP methods, versions and status codes: minet/include/minet/common/Http.h and
-- minet/src/common/Http.cpp.
pub mod Names
pub mod Status
use minet_core.Prelude.{
  ℕ, Bool, true, false, ◌≡◌, refl, ◌↔◌, arith, ◌==◌, if◌then◌else◌, Bytes, codes, equal, Eq,
}

-- `HttpMethod`. `DELETE` is `delete`, and so on.
pub data HttpMethod : Type 0 where
  get post put delete head options trace patch invalid : HttpMethod

-- The value of the enumerator, by which two methods are compared.
abbrev method_index : HttpMethod → ℕ
method_index get = 0
method_index post = 1
method_index put = 2
method_index delete = 3
method_index head = 4
method_index options = 5
method_index trace = 6
method_index patch = 7
method_index invalid = 8

-- `operator==` on methods
abbrev pub method_beq : HttpMethod → HttpMethod → Bool
method_beq a b = method_index a == method_index b

pub method_beq_iff : (a b : HttpMethod) → (method_beq a b ≡ true) ↔ (a ≡ b)
method_beq_iff a b = ground arith

instance abbrev pub method_eq : Eq HttpMethod
method_eq = record { beq = method_beq; beq_iff = method_beq_iff }

-- `HttpVersion`
pub data HttpVersion : Type 0 where
  http_1_0 http_1_1 http_2_0 invalid : HttpVersion

-- `HttpMethodToString`. The fall-through `"UNKNOWN"` is for values outside the enumeration.
unfoldable pub method_to_string : HttpMethod → Bytes
method_to_string get = codes "GET"
method_to_string post = codes "POST"
method_to_string put = codes "PUT"
method_to_string delete = codes "DELETE"
method_to_string head = codes "HEAD"
method_to_string options = codes "OPTIONS"
method_to_string trace = codes "TRACE"
method_to_string patch = codes "PATCH"
method_to_string HttpMethod.invalid = codes "INVALID"

-- `HttpMethodFromString`
unfoldable pub method_from_string : Bytes → HttpMethod
method_from_string method =
    if equal method (codes "GET")
    then get
    else if equal method (codes "POST")
    then post
    else if equal method (codes "PUT")
    then put
    else if equal method (codes "DELETE")
    then delete
    else if equal method (codes "HEAD")
    then head
    else if equal method (codes "OPTIONS")
    then options
    else if equal method (codes "TRACE")
    then trace
    else if equal method (codes "PATCH")
    then patch
    else HttpMethod.invalid

-- `StatusCodeToDescription`
unfoldable pub status_code_to_description : ℕ → Bytes
status_code_to_description status_code =
    if status_code == Status.ok
    then codes "OK"
    else if status_code == Status.no_content
    then codes "No Content"
    else if status_code == Status.bad_request
    then codes "Bad Request"
    else if status_code == Status.not_found
    then codes "Not Found"
    else if status_code == Status.method_not_allowed
    then codes "Method Not Allowed"
    else if status_code == Status.internal_server_error
    then codes "Internal Server Error"
    else codes "Unknown"
