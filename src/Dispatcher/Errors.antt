-- ===== src/Dispatcher/Errors.antt =====
-- How `Dispatch` ends: the answers to errors, and the closed streams.
-- minet/src/core/IRequestDispatcher.cpp with minet/src/impl/DefaultHandlers.cpp.
use minet_core.Prelude.{
  ℕ, false, some, ◌≡◌, ◌⊎◌, inl, inr, refl, ap, ◌∙◌, arith, ◌==◌, ◌≤◌, if◌then◌else◌, Bytes, length,
  nat_eq,
}
use minet_core.Prelude.Map.{find, find-insert}
use minet_core.Prelude.Result.{Exception, returned, thrown}
use minet_core.Http.Status
use minet_core.Request.{HttpContext, HttpResponse}
use minet_core.Io.Stream.{Stream}
use minet_core.Io.Writer.{buffer_size}
use minet_core.Path.{clean_path}
use minet_core.Response.{response_pieces, with_length}
use minet_core.Response.Sent.{joined, write_response-fits}
use minet_core.Dispatcher.{
  Handler, Dispatcher, Found, found, no_path, no_method, caught, after_handle, lookup, Streams,
  put_stream, dispatch, dispatch_clean, dispatch_at, after_found, run_found, run_error,
  invoke_handler, after_write, finish, destroy_context, register_error_handler,
}
use minet_core.Dispatcher.Handlers.{
  bind, error_function, default_error_handler, post_handle, register_default_handlers,
}

-- The codes that the default handlers answer.
abbrev pub IsError : ℕ → Type 0
IsError code = (code ≡ 400) ⊎ (code ≡ 405) ⊎ (code ≡ 404) ⊎ (code ≡ 500)

register_error_handler-find :
    (code k : ℕ) (h : Handler) (d : Dispatcher)
    → find k (register_error_handler code h d).error_handlers
      ≡ (if code == k then some h else find k d.error_handlers)
unfolding register_error_handler
register_error_handler-find code k h d = find-insert code k h d.error_handlers

-- Each of the codes has its handler after the registration of the default ones.
default_handlers-find :
    (d : Dispatcher) (code : ℕ)
    → IsError code
    → find code (register_default_handlers d).error_handlers ≡ some (bind (error_function code))
unfolding register_default_handlers register_error_handler
default_handlers-find d code (inl e) = rw e (simp find-insert)
default_handlers-find d code (inr (inl e)) = rw e (simp find-insert)
default_handlers-find d code (inr (inr (inl e))) = rw e (simp find-insert)
default_handlers-find d code (inr (inr (inr e))) = rw e (simp find-insert)

-- Why a request fails, the code that stands for it, and the context that the handler leaves.
pub data Fails : Found → HttpContext → ℕ → HttpContext → Type 0 where
  unknown_path : {c : HttpContext} → Fails no_path c 404 c
  unknown_method : {c : HttpContext} → Fails no_method c 405 c
  handler_throws :
      {h : Handler} {e : Exception} {c c' : HttpContext}
      → h c ≡ (thrown e, c')
      → Fails (found h) c 500 c'
  handler_refuses :
      {h : Handler} {code : ℕ} {c c' : HttpContext}
      → IsError code
      → h c ≡ (returned code, c')
      → Fails (found h) c code c'

Fails-IsError : (f : Found) (c c' : HttpContext) (code : ℕ) → Fails f c code c' → IsError code
Fails-IsError f c c' code unknown_path = inr (inr (inl refl))
Fails-IsError f c c' code unknown_method = inr (inl refl)
Fails-IsError f c c' code (handler_throws t) = inr (inr (inr refl))
Fails-IsError f c c' code (handler_refuses bad t) = bad

-- The response of a default handler.
abbrev pub error_response : ℕ → HttpResponse → HttpResponse
error_response code r = post_handle (default_error_handler code r)

not_ok : (code : ℕ) → IsError code → (code == Status.ok) ≡ false
not_ok code h = ground arith

module _ {S : Type 0} (io : Stream S) where
  -- The context after the answer of a default handler.
  abbrev pub answered : ℕ → HttpContext → HttpContext
  answered code c = record c { response = with_length (error_response code c.response) }

  -- The streams after the answer, before they are closed.
  abbrev pub answer_sent : ℕ → HttpContext → Streams io → Streams io
  answer_sent code c streams =
      put_stream io c.response.body_stream
        (io.write (streams c.response.body_stream)
          (joined (response_pieces (with_length (error_response code c.response))))).1
        streams

  invoke-error :
      (garbage : Bytes) (code : ℕ) (c : HttpContext) (streams : Streams io)
      → length garbage ≡ buffer_size
      → length (joined (response_pieces (with_length (error_response code c.response))))
        ≤ buffer_size
      → invoke_handler io garbage (bind (error_function code)) c streams
        ≡ some (returned Status.ok, answered code c, answer_sent code c streams)
  unfolding invoke_handler bind
  invoke-error garbage code c streams g h =
      let r : HttpResponse = error_response code c.response in
      ap (after_write io Status.ok (record c { response = r }) streams)
        (write_response-fits io garbage (streams c.response.body_stream) r g h)

  -- With the default handlers, the answer to a code that `run_found` gives.
  run_found-error :
      (garbage path : Bytes) (d : Dispatcher) (c c' : HttpContext) (streams streams' : Streams io)
      (code : ℕ)
      → clean_path c.request.path ≡ some path
      → run_found io garbage c streams (lookup d path c.request.method) ≡ some (code, c', streams')
      → IsError code
      → length garbage ≡ buffer_size
      → length (joined (response_pieces (with_length (error_response code c'.response))))
        ≤ buffer_size
      → dispatch io garbage (register_default_handlers d) c streams
        ≡ some (
          returned tt,
          answered code c',
          (destroy_context io (answered code c') (answer_sent code c' streams')).1,
        )
  unfolding dispatch dispatch_clean
  run_found-error garbage path d c c' streams streams' code e r bad g fits =
      let all : Dispatcher = register_default_handlers d in
      let same : lookup all path c.request.method ≡ lookup d path c.request.method =
        unfold register_default_handlers register_error_handler in refl in
      ap (dispatch_at io garbage all c streams) e
      ∙ ap (λ f. after_found io garbage all (run_found io garbage c streams f)) same
      ∙ ap (after_found io garbage all) r
      ∙ rw (not_ok code bad) (
          ap (λ o. finish io (run_error io garbage code c' streams' o))
            (default_handlers-find d code bad)
          ∙ ap (finish io) (invoke-error garbage code c' streams' g fits))

  run_found-Fails :
      (garbage : Bytes) (f : Found) (c c' : HttpContext) (streams : Streams io) (code : ℕ)
      → Fails f c code c'
      → run_found io garbage c streams f ≡ some (code, c', streams)
  unfolding invoke_handler
  run_found-Fails garbage f c c' streams code unknown_path = refl
  run_found-Fails garbage f c c' streams code unknown_method = refl
  run_found-Fails garbage f c c' streams code (handler_throws {h} {e} t) =
      ap (λ m. caught io (after_handle io garbage streams m)) t
  run_found-Fails garbage f c c' streams code (handler_refuses {h} bad t) =
      ap (λ m. caught io (after_handle io garbage streams m)) t ∙ rw (not_ok code bad) refl

  pub dispatch-error :
      (garbage path : Bytes) (d : Dispatcher) (c c' : HttpContext) (streams : Streams io) (code : ℕ)
      → clean_path c.request.path ≡ some path
      → Fails (lookup d path c.request.method) c code c'
      → length garbage ≡ buffer_size
      → length (joined (response_pieces (with_length (error_response code c'.response))))
        ≤ buffer_size
      → dispatch io garbage (register_default_handlers d) c streams
        ≡ some (
          returned tt,
          answered code c',
          (destroy_context io (answered code c') (answer_sent code c' streams)).1,
        )
  dispatch-error garbage path d c c' streams code e fails g fits =
      run_found-error garbage path d c c' streams streams code e
        (run_found-Fails garbage (lookup d path c.request.method) c c' streams code fails)
        (Fails-IsError _ c c' code fails) g fits
