-- ===== src/Async.antt =====
-- The character-fed request parser: `AsyncHttpRequestParser` of minet/include/minet/utils/Parser.h and
-- minet/src/utils/AsyncParser.cpp.
pub mod Chars
pub mod Header
pub mod Run
pub mod Sound
pub mod Wire
pub mod Pieces
pub mod Stored
pub mod RoundTrip
pub mod Chunks
pub mod Throws
mod Tests
use minet_core.Prelude.{
  ℕ, Bool, true, false, List, [], ◌∷◌, ◌++◌, ltb, ◌==◌, if◌then◌else◌, Bytes, codes, equal, length,
}
use minet_core.Prelude.Int.{ℤ, pos, is_pos, to_size}
use minet_core.Prelude.Result.{Result, returned, thrown, ◌>>=◌}
use minet_core.Http.{method_from_string, method_beq, HttpMethod, HttpVersion}
use minet_core.Request.{HttpRequest}
use minet_core.Async.Chars.{is_alpha, is_path_char, is_header_key_char, is_header_value_char}
use minet_core.Async.Header.{store_header}

-- `State`; the handlers that `_handler` points to have the same names.
pub data State : Type 0 where
  start method space1 path space2 version new_line header_key : State
  colon space3 header_value header_new_line end_line body done error : State

-- `static_cast<int>(state)`
abbrev pub state_code : State → ℕ
state_code State.start = 10
state_code State.method = 11
state_code State.space1 = 12
state_code State.path = 13
state_code State.space2 = 14
state_code State.version = 15
state_code State.new_line = 16
state_code State.header_key = 17
state_code State.colon = 18
state_code State.space3 = 19
state_code State.header_value = 20
state_code State.header_new_line = 21
state_code State.end_line = 22
state_code State.body = 23
state_code State.done = 24
state_code State.error = 25

-- The parser with the request that it writes to.
pub record Parser : Type 0 where
  pub handler : State
  pub token : Bytes
  pub key : Bytes
  pub request : HttpRequest
  pub error : ℤ

-- The constructor. It leaves `_error` uninitialised: its value is an argument.
abbrev pub create : HttpRequest → ℤ → Parser
create request garbage = record {
  handler = State.start;
  token = [];
  key = [];
  request = record request { content_length = pos 0 };
  error = garbage;
}

-- What a handler returns, with the parser after it; `std::stoi` may throw.
abbrev pub Step : Type 0
Step = Result (ℤ × Parser)

-- `CONTINUE`
abbrev pub continue : Parser → Step
continue p = returned (pos 0, p)

-- `TRANSIT(...)` before `CONTINUE`
abbrev pub transit : Parser → State → Step
transit p s = returned (pos 0, record p { handler = s })

-- `ACCEPT`
abbrev pub accept : Parser → Step
accept p = returned (pos 1, p)

-- `REJECT`
abbrev pub reject : Parser → Step
reject p = returned (p.error, p)

-- `RAISE_ERROR`
abbrev pub raise_error : Parser → State → Step
raise_error p s = reject (record p { handler = State.error; error = pos (state_code s) })

-- `_token.push_back(ch)`
abbrev pub push : Parser → ℕ → Parser
push p ch = record p { token = p.token ++ (ch ∷ []) }

parse_start : Parser → ℕ → Step
parse_start p ch =
    if is_alpha ch then transit (push p ch) State.method else raise_error p State.start

-- The method is stored and the token cleared before the check.
parse_method : Parser → ℕ → Step
parse_method p ch =
    if is_alpha ch
    then continue (push p ch)
    else if ch == b' '
    then (let m = method_from_string p.token in
        let q : Parser = record p { token = []; request = record (p.request) { method = m } } in
        if method_beq m HttpMethod.invalid
        then raise_error q State.method
        else transit q State.space1)
    else raise_error p State.method

parse_space1 : Parser → ℕ → Step
parse_space1 p ch =
    if ch == b'/' then transit (push p ch) State.path else raise_error p State.space1

parse_path : Parser → ℕ → Step
parse_path p ch =
    if ch == b' '
    then transit (record p { token = []; request = record (p.request) { path = p.token } })
        State.space2
    else if is_path_char ch
    then continue (push p ch)
    else raise_error p State.path

parse_space2 : Parser → ℕ → Step
parse_space2 p ch =
    if ch == b'H' then transit (push p ch) State.version else raise_error p State.space2

-- One `case` that pushes a fixed character.
abbrev expect_version : Parser → ℕ → ℕ → Step
expect_version p ch wanted =
    if ch == wanted then continue (push p ch) else raise_error p State.version

-- `case 8`
abbrev end_version : Parser → ℕ → Step
end_version p ch =
    if ch == b'\r'
    then transit
        (record p { token = []; request = record (p.request) { version = HttpVersion.http_1_1 } })
        State.new_line
    else raise_error p State.version

-- The `switch` on the length of the token.
version_case : Parser → ℕ → ℕ → Step
version_case p ch len =
    if len == 1
    then expect_version p ch b'T'
    else if len == 2
    then expect_version p ch b'T'
    else if len == 3
    then expect_version p ch b'P'
    else if len == 4
    then expect_version p ch b'/'
    else if len == 5
    then expect_version p ch b'1'
    else if len == 6
    then expect_version p ch b'.'
    else if len == 7
    then expect_version p ch b'1'
    else if len == 8
    then end_version p ch
    else raise_error p State.version

parse_version : Parser → ℕ → Step
unfolding version_case
parse_version p ch = version_case p ch (length p.token)

parse_new_line : Parser → ℕ → Step
parse_new_line p ch =
    if ch == b'\n' then transit p State.header_key else raise_error p State.new_line

parse_header_key : Parser → ℕ → Step
parse_header_key p ch =
    if ch == b'\r'
    then transit p State.end_line
    else if is_header_key_char ch
    then continue (push p ch)
    else if ch == b':'
    then transit (record p { key = p.token; token = [] }) State.colon
    else raise_error p State.header_key

parse_colon : Parser → ℕ → Step
parse_colon p ch = if ch == b' ' then transit p State.space3 else raise_error p State.colon

parse_space3 : Parser → ℕ → Step
parse_space3 p ch =
    if is_header_value_char ch
    then transit (push p ch) State.header_value
    else raise_error p State.space3

parse_header_value : Parser → ℕ → Step
parse_header_value p ch =
    if is_header_value_char ch
    then continue (push p ch)
    else if ch == b'\r'
    then (do
      request ← store_header p.request p.key p.token
      transit (record p { request = request; token = [] }) State.header_new_line)
    else raise_error p State.header_value

parse_header_new_line : Parser → ℕ → Step
parse_header_new_line p ch =
    if ch == b'\n' then transit p State.header_key else raise_error p State.header_new_line

parse_end_line : Parser → ℕ → Step
parse_end_line p ch =
    if ch == b'\n'
    then (if is_pos p.request.content_length 0
        then accept (record p { handler = State.done })
        else transit p State.body)
    else raise_error p State.end_line

-- `static_cast<size_t>(_request->ContentLength)`
abbrev pub body_size : HttpRequest → ℕ
body_size r = to_size r.content_length

parse_body : Parser → ℕ → Step
parse_body p ch =
    if ltb (length p.request.body) (body_size p.request)
    then (let q : Parser = record p {
      request = record (p.request) { body = p.request.body ++ (ch ∷ []) };
    } in
        if length q.request.body == body_size p.request
        then accept (record q { handler = State.done })
        else continue q)
    else raise_error p State.body

-- The call through `_handler`.
unfoldable pub feed_in : State → Parser → ℕ → Step
unfolding parse_start parse_method parse_space1 parse_path parse_space2 parse_version parse_new_line
    parse_header_key parse_colon parse_space3 parse_header_value parse_header_new_line
    parse_end_line parse_body
feed_in State.start p ch = parse_start p ch
feed_in State.method p ch = parse_method p ch
feed_in State.space1 p ch = parse_space1 p ch
feed_in State.path p ch = parse_path p ch
feed_in State.space2 p ch = parse_space2 p ch
feed_in State.version p ch = parse_version p ch
feed_in State.new_line p ch = parse_new_line p ch
feed_in State.header_key p ch = parse_header_key p ch
feed_in State.colon p ch = parse_colon p ch
feed_in State.space3 p ch = parse_space3 p ch
feed_in State.header_value p ch = parse_header_value p ch
feed_in State.header_new_line p ch = parse_header_new_line p ch
feed_in State.end_line p ch = parse_end_line p ch
feed_in State.body p ch = parse_body p ch
feed_in State.done p ch = accept p
feed_in State.error p ch = reject p

-- `Feed`
abbrev pub feed : Parser → ℕ → Step
feed p ch = feed_in p.handler p ch
