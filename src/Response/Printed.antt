-- ===== src/Response/Printed.antt =====
-- `ToString` of requests and responses: minet/src/core/HttpContext.cpp.
use minet_core.Prelude.{
  ℕ, List, true, false, [], ◌∷◌, ◌++◌, ◌≡◌, refl, sym, ap, ◌∙◌, ◌==◌, if◌then◌else◌, Bytes, codes,
  length, append_assoc, append-nil,
}
use minet_core.Prelude.Int.{ℤ, is_positive}
use minet_core.Http.{method_to_string, status_code_to_description}
use minet_core.Http.Status
use minet_core.Request.{HeaderCollection, HttpRequest, HttpResponse, new_line}
use minet_core.Stoi.{to_string}
use minet_core.Response.{
  to_int, int_to_string, colon, space, header_pieces, response_pieces, with_length,
}
use minet_core.Response.Sent.{joined}

-- A header with a given name, unless its text is empty
abbrev pub line_unless_empty : Bytes → Bytes → Bytes
line_unless_empty name [] = []
line_unless_empty name (c ∷ cs) = name ++ (colon ++ ((c ∷ cs) ++ new_line))

abbrev pub length_line : ℤ → Bytes
length_line n =
    if is_positive n then codes "Content-Length" ++ (colon ++ (int_to_string n ++ new_line)) else []

unfoldable pub header_lines : HeaderCollection → Bytes
header_lines [] = []
header_lines ((key, value) ∷ rest) = key ++ (colon ++ (value ++ (new_line ++ header_lines rest)))

abbrev pub body_text : ℤ → Bytes → Bytes
body_text n body = if is_positive n then body else []

-- `HttpRequest::ToString`
unfoldable pub request_to_string : HttpRequest → Bytes
request_to_string r =
    method_to_string r.method
    ++ (space
        ++ (r.path
            ++ (space
                ++ (codes "HTTP/1.1"
                    ++ (new_line
                        ++ (line_unless_empty (codes "Content-Type") r.content_type
                            ++ (length_line r.content_length
                                ++ (line_unless_empty (codes "Host") r.host
                                    ++ (header_lines r.headers
                                        ++ (new_line ++ body_text r.content_length r.body))))))))))

-- `HttpResponse::ToString`
unfoldable pub response_to_string : HttpResponse → Bytes
response_to_string r =
    codes "HTTP/1.1"
    ++ (space
        ++ (to_string r.status_code
            ++ (space
                ++ (status_code_to_description r.status_code
                    ++ (new_line
                        ++ (line_unless_empty (codes "Content-Type") r.content_type
                            ++ (length_line r.content_length
                                ++ (header_lines r.headers
                                    ++ (new_line ++ body_text r.content_length r.body)))))))))

joined-append : (xs ys : List Bytes) → joined (xs ++ ys) ≡ joined xs ++ joined ys
unfolding joined
joined-append [] ys = refl
joined-append (x ∷ xs) ys =
    ap (◌++◌ x) (joined-append xs ys) ∙ sym (append_assoc x (joined xs) (joined ys))

joined-header_pieces : (hs : HeaderCollection) → joined (header_pieces hs) ≡ header_lines hs
unfolding joined header_pieces header_lines
joined-header_pieces [] = refl
joined-header_pieces ((key, value) ∷ rest) =
    ap (λ t. key ++ (colon ++ (value ++ (new_line ++ t)))) (joined-header_pieces rest)

-- A response with a body, a content type and a code that allows a body is printed for a log as it is
-- sent to the client.
pub response_to_string-sent :
    (r : HttpResponse) (c : ℕ) (cs : Bytes)
    → r.content_type ≡ c ∷ cs
    → (r.status_code == Status.no_content) ≡ false
    → is_positive (to_int (length r.body)) ≡ true
    → response_to_string (with_length r) ≡ joined (response_pieces (with_length r))
unfolding response_to_string response_pieces joined
response_to_string-sent r c cs t s b =
    rw (t, s, b) (simp (joined-append, joined-header_pieces, append_assoc, append-nil))
