-- ===== src/Request.antt =====
-- HTTP requests, responses and contexts: minet/include/minet/core/HttpContext.h, and their printing
-- in minet/src/core/HttpContext.cpp.
use minet_core.Prelude.{ℕ, [], ◌∷◌, Bytes}
use minet_core.Prelude.Int.{ℤ, pos}
use minet_core.Prelude.Map.{Map}
use minet_core.Http.{HttpMethod, HttpVersion}

-- `HeaderCollection`
abbrev pub HeaderCollection : Type 0
HeaderCollection = Map Bytes Bytes

-- A stream object, shared through `Ref<io::Stream>`: its place in the table of streams.
abbrev pub StreamRef : Type 0
StreamRef = ℕ

pub record HttpRequest : Type 0 where
  pub method : HttpMethod
  pub version : HttpVersion
  pub content_length : ℤ
  pub path : Bytes
  pub host : Bytes
  pub content_type : Bytes
  pub headers : HeaderCollection
  pub body : Bytes
  pub body_stream : StreamRef

pub record HttpResponse : Type 0 where
  pub status_code : ℕ
  pub content_length : ℤ
  pub content_type : Bytes
  pub headers : HeaderCollection
  pub body : Bytes
  pub body_stream : StreamRef

pub record HttpContext : Type 0 where
  pub request : HttpRequest
  pub response : HttpResponse

-- `CreateRef<HttpContext>()` value-initialises the request, so every field is zero or empty; the
-- callers then set the stream.
abbrev pub empty_request : StreamRef → HttpRequest
empty_request stream = record {
  method = HttpMethod.get;
  version = HttpVersion.http_1_0;
  content_length = pos 0;
  path = [];
  host = [];
  content_type = [];
  headers = [];
  body = [];
  body_stream = stream;
}

-- The response that the callers of `CreateRef<HttpContext>()` set up: status 200.
abbrev pub empty_response : StreamRef → HttpResponse
empty_response stream = record {
  status_code = 200;
  content_length = pos 0;
  content_type = [];
  headers = [];
  body = [];
  body_stream = stream;
}

-- `NEW_LINE`
abbrev pub new_line : Bytes
new_line = b'\r' ∷ b'\n' ∷ []
