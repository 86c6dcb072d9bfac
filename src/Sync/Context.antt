-- ===== src/Sync/Context.antt =====
-- The context of a request that is read synchronously: both `CreateHttpContext` of
-- minet/src/core/HttpContext.cpp.
use minet_core.Prelude.{ℕ, Option, none, some, ◌==◌, if◌then◌else◌, Bytes, codes}
use minet_core.Request.{HttpContext, StreamRef, empty_request, empty_response}
use minet_core.Io.Stream.{Stream}
use minet_core.Sync.Calls.{Outcome, returned, ◌>>=◌}
use minet_core.Sync.Token.{RequestParser}
use minet_core.Sync.{parse_http_request}

module _ {S : Type 0} (io : Stream S) where
  -- What is returned, the context that is stored, and the stream after it.
  abbrev pub context_of : StreamRef → ℕ × RequestParser S → Outcome (ℕ × Option HttpContext × S)
  context_of ref (ret, p) =
      let ctx : HttpContext = record { request = p.request; response = empty_response ref } in
      returned (ret, (if ret == 0 then some ctx else none), p.reader.stream)

  -- Where `host` is what `AddressToHost` gives for the peer's address.
  abbrev pub create_http_context :
      ℕ → S → Bytes → Bytes → StreamRef → Outcome (ℕ × Option HttpContext × S)
  create_http_context fuel s garbage host ref =
      parse_http_request io fuel s garbage (record (empty_request ref) { host = host })
      >>= context_of ref

  abbrev pub create_http_context_unknown :
      ℕ → S → Bytes → StreamRef → Outcome (ℕ × Option HttpContext × S)
  create_http_context_unknown fuel s garbage ref =
      create_http_context fuel s garbage (codes "unknown") ref
