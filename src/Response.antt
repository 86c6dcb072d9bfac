-- ===== src/Response.antt =====
-- Writing a response: `RequestDispatcher::_WriteResponse` of
-- minet/src/components/RequestDispatcher.cpp.
pub mod Sent
pub mod Total
pub mod Printed
use minet_core.Prelude.{
  ℕ, suc, ◌+◌, ◌-◌, ◌%◌, ◌^◌, List, [], ◌∷◌, ◌++◌, Option, none, some, ltb, ◌==◌, if◌then◌else◌,
  Bytes, codes, length,
}
use minet_core.Prelude.Int.{ℤ, pos, negsuc}
use minet_core.Request.{HeaderCollection, HttpResponse, new_line}
use minet_core.Http.{status_code_to_description}
use minet_core.Http.Status
use minet_core.Stoi.{to_string}
use minet_core.Io.Stream.{Stream}
use minet_core.Io.Writer.{Writer, create, write, destroy}

-- `static_cast<int>` of a size
abbrev pub to_int : ℕ → ℤ
to_int n = if ltb (n % 2 ^ 32) (2 ^ 31) then pos (n % 2 ^ 32) else negsuc (2 ^ 32 - 1 - n % 2 ^ 32)

-- `std::to_string` of an `int`
abbrev pub int_to_string : ℤ → Bytes
int_to_string (pos n) = to_string n
int_to_string (negsuc n) = b'-' ∷ to_string (suc n)

-- `COLON` and `SPACE`
abbrev pub colon : Bytes
colon = codes ": "

abbrev pub space : Bytes
space = codes " "

-- The lines of the headers, in the order of the map.
unfoldable pub header_pieces : HeaderCollection → List Bytes
header_pieces [] = []
header_pieces ((key, value) ∷ rest) = key ∷ colon ∷ value ∷ new_line ∷ header_pieces rest

abbrev pub start_pieces : HttpResponse → List Bytes
start_pieces r =
    codes "HTTP/1.1"
    ∷ space
    ∷ to_string r.status_code
    ∷ space
    ∷ status_code_to_description r.status_code
    ∷ new_line
    ∷ codes "Content-Type"
    ∷ colon
    ∷ r.content_type
    ∷ new_line
    ∷ []

abbrev pub length_pieces : HttpResponse → List Bytes
length_pieces r =
    if r.status_code == Status.no_content
    then []
    else codes "Content-Length" ∷ colon ∷ int_to_string r.content_length ∷ new_line ∷ []

abbrev pub body_pieces : HttpResponse → List Bytes
body_pieces r = if r.status_code == Status.no_content then [] else r.body ∷ []

-- The arguments of the calls of `Write`, in order.
unfoldable pub response_pieces : HttpResponse → List Bytes
response_pieces r =
    start_pieces r ++ (length_pieces r ++ (header_pieces r.headers ++ (new_line ∷ body_pieces r)))

-- `response.ContentLength = ...`
abbrev pub with_length : HttpResponse → HttpResponse
with_length r = record r { content_length = to_int (length r.body) }

module _ {S : Type 0} (io : Stream S) where
  abbrev pub next_piece : Option (ℤ × Writer S) → (Writer S → Option (Writer S)) → Option (Writer S)
  next_piece none next = none
  next_piece (some (n, w)) next = next w

  -- Calls of `Write`, one for each text. Their results are not looked at.
  unfoldable pub write_pieces : Writer S → List Bytes → Option (Writer S)
  write_pieces w [] = some w
  write_pieces w (p ∷ ps) = next_piece (write io w p) (λ q. write_pieces q ps)

  abbrev pub destroyed : Option (Writer S) → Option S
  destroyed none = none
  destroyed (some w) = some (destroy io w)

  -- `_WriteResponse` on the response's stream: the response and the stream after it. The writer is
  -- destroyed at the end. `garbage` is the content of its new buffer.
  unfoldable pub write_response : Bytes → S → HttpResponse → HttpResponse × Option S
  write_response garbage s r =
      let q = with_length r in (q, destroyed (write_pieces (create s garbage) (response_pieces q)))
