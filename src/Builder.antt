-- ===== src/Builder.antt =====
-- The asynchronous builder of contexts: `AsyncHttpContextBuilder` of
-- minet/src/core/HttpContext.cpp, over any stream.
pub mod Parses
mod Tests
use minet_core.Prelude.{ℕ, zero, suc, Option, none, some, Bytes, ◌==◌, if◌then◌else◌}
use minet_core.Prelude.Int.{ℤ, pos, negsuc, is_negative, is_positive, is_pos}
use minet_core.Prelude.Result.{Result, returned, thrown}
use minet_core.Request.{StreamRef, HttpContext, empty_request, empty_response}
use minet_core.Io.Status
use minet_core.Io.Stream.{Stream}
use minet_core.Io.Reader
use minet_core.Io.Reader.{Reader, read}
use minet_core.Async
use minet_core.Async.{Parser, Step, feed}

-- The builder; its parser holds the request of the context.
pub record Builder (S : Type 0) : Type 0 where
  pub parser : Parser
  pub reader : Reader S

-- The constructor. `host` is what `AddressToHost` gives for the peer's address.
abbrev pub create : {S : Type 0} → Bytes → StreamRef → S → Bytes → ℤ → Builder S
create host ref stream garbage error = record {
  parser = Async.create (record (empty_request ref) { host = host }) error;
  reader = Reader.create stream garbage;
}

-- What `Parse` returns after the loop.
abbrev pub end_code : ℤ → ℤ
end_code (negsuc zero) = Status.end_of_file
end_code (negsuc (suc (suc zero))) = Status.error
end_code _ = pos 0

abbrev pub to_char : ℤ → ℕ
to_char (pos n) = n
to_char (negsuc n) = 0

module _ {S : Type 0} (io : Stream S) where
  abbrev pub Parsed : Type 0
  Parsed = Option (Result (ℤ × Builder S))

  -- After `Feed`; `more` is the rest of the loop.
  abbrev pub after_fed : Reader S → Step → (Parser → Parsed) → Parsed
  after_fed q (thrown e) more = some (thrown e)
  after_fed q (returned (r, p)) more =
      if is_negative r
      then some (returned (r, record { parser = p; reader = q }))
      else if is_pos r 1
      then some (returned (pos 1, record { parser = p; reader = q }))
      else more p

  -- The loop, on fuel.
  unfoldable pub parse : ℕ → Builder S → Parsed
  parse zero b = none
  parse (suc fuel) b =
      let (ch, q) = read io b.reader in
      let fed =
        after_fed q (feed b.parser (to_char ch))
          (λ p. parse fuel (record { parser = p; reader = q })) in
      if is_positive ch then fed else some (returned (end_code ch, record b { reader = q }))
