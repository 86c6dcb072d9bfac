-- ===== src/Dispatcher/Tests.antt =====
-- The theorems on paths, responses and the dispatcher at concrete inputs.
use minet_core.Prelude.{
  ℕ, zero, suc, ◌-◌, ◌≤◌, Bool, true, false, List, [], ◌∷◌, ◌++◌, some, ◌≡◌, inl, refl, arith,
  Bytes, codes, equal, length, take,
}
use minet_core.Prelude.Int.{pos}
use minet_core.Prelude.Map.{find}
use minet_core.Prelude.Result.{Result, returned}
use minet_core.Http.{HttpMethod, method_beq, status_code_to_description}
use minet_core.Request.{HttpResponse, HttpContext, empty_request, empty_response, new_line}
use minet_core.Stoi.{to_string}
use minet_core.Io.Stream.{ReadResult, received, Stream}
use minet_core.Path.{clean_path, pop_slashes}
use minet_core.Path.Clean.{IsClean, clean_path-IsClean, IsClean-clean_path}
use minet_core.Response.{
  write_response, response_pieces, with_length, start_pieces, length_pieces, header_pieces,
}
use minet_core.Response.Sent.{joined, write_response-fits, write_response-truncates}
use minet_core.Response.Printed.{response_to_string, response_to_string-sent}
use minet_core.Dispatcher.{
  Handler, Dispatcher, empty_dispatcher, no_path, lookup, register_clean, register_handler, Streams,
  dispatch, after_found, caught, invoke_handler, destroy_context,
}
use minet_core.Dispatcher.Handlers.{bind, register_default_handlers}
use minet_core.Dispatcher.Routes.{found_after, lookup-register_clean, register_handler-dispatch}
use minet_core.Dispatcher.Errors.{
  error_response, answered, answer_sent, unknown_path, dispatch-error,
}
use minet_core.Dispatcher.Closes.{dispatch-total, dispatch-Closed}

ab : IsClean (codes "/ab")
ab = record { first = (codes "ab", refl); last = (codes "/a", 98, refl, λ e. omega arith) }

clean_path-IsClean_example : IsClean (codes "/ab")
clean_path-IsClean_example =
    clean_path-IsClean (codes "ab//") (codes "/ab") (unfold clean_path pop_slashes in refl)

IsClean-clean_path_example : clean_path (codes "/ab") ≡ some (codes "/ab")
IsClean-clean_path_example = IsClean-clean_path (codes "/ab") ab

-- A stream that keeps what is written, and whether it was closed.
abbrev Sink : Type 0
Sink = Bytes × Bool

sink_read_within :
    (r : ReadResult) (n : ℕ) (bs : Bytes) → r ≡ ReadResult.error → r ≡ received bs → length bs ≤ n
sink_read_within r n bs h e = cc

abbrev sink : Stream Sink
sink = record {
  read = λ s n. (ReadResult.error, s);
  write = λ s bs. (pos (length bs), (s.0 ++ bs, s.1));
  close = λ s. (pos 0, (s.0, true));
  read_within = λ s n bs e. sink_read_within ReadResult.error n bs refl e;
}

abbrev zeros : ℕ → Bytes
zeros zero = []
zeros (suc n) = 0 ∷ zeros n

abbrev small : HttpResponse
small = record (empty_response 0) { body = codes "hi" }

write_response-fits_example :
    write_response sink (zeros 1024) ([], false) small
    ≡ (with_length small, some (joined (response_pieces (with_length small)), false))
write_response-fits_example =
    write_response-fits sink (zeros 1024) ([], false) small refl
      (unfold joined response_pieces header_pieces status_code_to_description to_string in
        omega arith)

abbrev large : HttpResponse
large = record (empty_response 0) { body = zeros 2000 }

-- All of the response but its body.
abbrev head : List Bytes
head = start_pieces (with_length large) ++ (length_pieces (with_length large) ++ (new_line ∷ []))

head-length : length (joined head) ≡ 57
unfolding joined status_code_to_description to_string
head-length = refl

write_response-truncates_example : write_response sink (zeros 1024) ([], false) large ≡ (
  with_length large,
  some (joined head ++ take (1024 - length (joined head)) (zeros 2000), false),
)
write_response-truncates_example =
    write_response-truncates sink (zeros 1024) ([], false) large head (zeros 2000) refl
      (unfold response_pieces header_pieces in refl) (omega (arith, head-length))
      (omega (arith, head-length)) refl

abbrev hello : Handler
hello = bind (λ request response. (returned tt, record response { body = codes "hello" }))

lookup-register_clean_example :
    lookup
      (register_clean (codes "/ab") HttpMethod.get hello empty_dispatcher)
      (codes "/ab")
      HttpMethod.post
    ≡ found_after
        (equal (codes "/ab") (codes "/ab"))
        (method_beq HttpMethod.get HttpMethod.post)
        hello
        no_path
unfolding find
lookup-register_clean_example =
    lookup-register_clean empty_dispatcher (codes "/ab") (codes "/ab") HttpMethod.get
      HttpMethod.post hello

-- `GET ab/`
abbrev context : HttpContext
context = record {
  request = record (empty_request 0) { path = codes "ab/" };
  response = empty_response 0;
}

abbrev open_streams : ℕ → Sink
open_streams i = ([], false)

context-path : clean_path context.request.path ≡ some (codes "/ab")
unfolding clean_path pop_slashes
context-path = refl

register_handler-dispatch_example :
    (d : Dispatcher) × (register_handler (codes "/ab") HttpMethod.get hello empty_dispatcher
      ≡ some d)
    × (dispatch sink (zeros 1024) d context open_streams
        ≡ after_found sink
            (zeros 1024)
            d
            (caught sink (invoke_handler sink (zeros 1024) hello context open_streams)))
register_handler-dispatch_example =
    register_handler-dispatch sink empty_dispatcher (codes "/ab") (codes "/ab") (zeros 1024) hello
      context open_streams (unfold clean_path pop_slashes in refl) context-path
      (inl (unfold find in refl))

error-fits :
    length (joined (response_pieces (with_length (error_response 404 context.response)))) ≤ 1024
unfolding joined response_pieces header_pieces status_code_to_description to_string
error-fits = omega arith

dispatch-error_example :
    dispatch sink (zeros 1024) (register_default_handlers empty_dispatcher) context open_streams
    ≡ some (
      returned tt,
      answered sink 404 context,
      (destroy_context sink
          (answered sink 404 context)
          (answer_sent sink 404 context open_streams)).1,
    )
dispatch-error_example =
    dispatch-error sink (zeros 1024) (codes "/ab") empty_dispatcher context context open_streams 404
      context-path (unfold find in unknown_path) refl error-fits

dispatch-total_example :
    (r : Result {0} Unit) × (c : HttpContext) × (t : Streams sink) × (dispatch sink
        (zeros 1024)
        empty_dispatcher
        context
        open_streams
      ≡ some (r, c, t))
dispatch-total_example =
    dispatch-total sink (zeros 1024) refl empty_dispatcher context open_streams (codes "/ab")
      context-path

dispatch-Closed_example :
    let c = answered sink 404 context in
    let t = (destroy_context sink c (answer_sent sink 404 context open_streams)).1 in
    ((t c.request.body_stream).1 ≡ true) × ((t c.response.body_stream).1 ≡ true)
dispatch-Closed_example =
    dispatch-Closed sink (λ s. s.1 ≡ true) (λ s. refl) (zeros 1024)
      (register_default_handlers empty_dispatcher) context (answered sink 404 context) open_streams
      (destroy_context sink (answered sink 404 context)
        (answer_sent sink 404 context open_streams)).1
      dispatch-error_example

abbrev typed : HttpResponse
typed = record small { content_type = codes "text/plain" }

response_to_string-sent_example :
    response_to_string (with_length typed) ≡ joined (response_pieces (with_length typed))
response_to_string-sent_example =
    response_to_string-sent typed 116 (codes "ext/plain") refl refl refl
