-- ===== src/Dispatcher.antt =====
-- The request dispatcher: minet/src/core/IRequestDispatcher.cpp, the rest of
-- minet/src/components/RequestDispatcher.cpp, and `DestroyHttpContext` of
-- minet/src/core/HttpContext.cpp. Logging is left out.
pub mod Handlers
pub mod Routes
pub mod Errors
pub mod Closes
mod Tests
use minet_core.Prelude.{
  ℕ, List, Bool, true, false, [], ◌∷◌, Option, none, some, Bytes, ◌==◌, ◌&&◌, if◌then◌else◌,
  bytes_eq, nat_eq,
}
use minet_core.Prelude.Int.{ℤ, pos, is_pos}
use minet_core.Prelude.Map.{Map, find, insert}
use minet_core.Prelude.Result.{Result, returned, thrown, Exception}
use minet_core.Http.{HttpMethod, method_eq}
use minet_core.Http.Status
use minet_core.Request.{StreamRef, HttpResponse, HttpContext}
use minet_core.Io.Stream.{Stream}
use minet_core.Path.{clean_path}
use minet_core.Response.{write_response}

-- `IRequestHandler::Handle`. It changes the context, also when it throws. A null pointer is no handler.
abbrev pub Handler : Type 0
Handler = HttpContext → Result ℕ × HttpContext

-- `IRequestDispatcher`
pub record Dispatcher : Type 0 where
  pub handlers : Map Bytes (Map HttpMethod Handler)
  pub error_handlers : Map ℕ Handler

abbrev pub empty_dispatcher : Dispatcher
empty_dispatcher = record { handlers = []; error_handlers = [] }

-- `find` in the outer map and then in the inner one, whose failures the program tells apart.
pub data Found : Type 0 where
  found : Handler → Found
  no_path : Found
  no_method : Found

abbrev pub found_or : Option Handler → Found
found_or none = no_method
found_or (some h) = found h

abbrev pub find_method : HttpMethod → Option (Map HttpMethod Handler) → Found
find_method m none = no_path
find_method m (some methods) = found_or (find m methods)

-- The handler of a clean path and a method.
abbrev pub lookup : Dispatcher → Bytes → HttpMethod → Found
lookup d path m = find_method m (find path d.handlers)

-- `_handlers[cleanedPath]`: a new entry is an empty map.
abbrev pub methods_or_empty : Option (Map HttpMethod Handler) → Map HttpMethod Handler
methods_or_empty none = []
methods_or_empty (some methods) = methods

-- `_handlers[cleanedPath][method] = handler`
abbrev pub put_handler : Bytes → HttpMethod → Handler → Dispatcher → Dispatcher
put_handler path m h d = record d {
  handlers = insert path (insert m h (methods_or_empty (find path d.handlers))) d.handlers;
}

-- What `RegisterHandler` does with what it found for the clean path.
abbrev pub put_if_absent : Bytes → HttpMethod → Handler → Dispatcher → Found → Dispatcher
put_if_absent path m h d (found g) = d
put_if_absent path m h d no_path = put_handler path m h d
put_if_absent path m h d no_method = put_handler path m h d

abbrev pub register_clean : Bytes → HttpMethod → Handler → Dispatcher → Dispatcher
register_clean path m h d = put_if_absent path m h d (lookup d path m)

abbrev pub register_at : HttpMethod → Handler → Dispatcher → Option Bytes → Option Dispatcher
register_at m h d none = none
register_at m h d (some path) = some (register_clean path m h d)

-- `RegisterHandler`; `none` where `CleanPath` is undefined.
unfoldable pub register_handler : Bytes → HttpMethod → Handler → Dispatcher → Option Dispatcher
register_handler path m h d = register_at m h d (clean_path path)

-- `RegisterErrorHandler`
unfoldable pub register_error_handler : ℕ → Handler → Dispatcher → Dispatcher
register_error_handler code h d = record d { error_handlers = insert code h d.error_handlers }

module _ {S : Type 0} (io : Stream S) where
  -- The streams that contexts refer to.
  abbrev pub Streams : Type 0
  Streams = StreamRef → S

  abbrev pub put_stream : StreamRef → S → Streams → Streams
  put_stream i s streams j = if i == j then s else streams j

  -- What a call comes to: what it returns, and the context and the streams after it.
  abbrev pub Outcome : Type 0 → Type 0
  Outcome A = Option (Result A × HttpContext × Streams)

  -- The end of `_InvokeHandler`, when the response was written.
  abbrev pub after_write : ℕ → HttpContext → Streams → HttpResponse × Option S → Outcome ℕ
  after_write code c streams (r, none) = none
  after_write code c streams (r, some s) =
      some (returned code, record c { response = r }, put_stream c.response.body_stream s streams)

  abbrev pub after_handle : Bytes → Streams → Result ℕ × HttpContext → Outcome ℕ
  after_handle garbage streams (thrown e, c) = some (thrown e, c, streams)
  after_handle garbage streams (returned code, c) =
      if code == Status.ok
      then after_write code c streams
          (write_response io garbage (streams c.response.body_stream) c.response)
      else some (returned code, c, streams)

  -- `_InvokeHandler`
  unfoldable pub invoke_handler : Bytes → Handler → HttpContext → Streams → Outcome ℕ
  invoke_handler garbage h c streams = after_handle garbage streams (h c)

  -- The `catch` around the handler.
  abbrev pub caught : Outcome ℕ → Option (ℕ × HttpContext × Streams)
  caught none = none
  caught (some (returned code, c, streams)) = some (code, c, streams)
  caught (some (thrown e, c, streams)) = some (Status.internal_server_error, c, streams)

  -- The status code after the handler, if there is one.
  abbrev pub run_found : Bytes → HttpContext → Streams → Found → Option (ℕ × HttpContext × Streams)
  run_found garbage c streams (found h) = caught (invoke_handler garbage h c streams)
  run_found garbage c streams no_path = some (Status.not_found, c, streams)
  run_found garbage c streams no_method = some (Status.method_not_allowed, c, streams)

  -- `DestroyHttpContext`. It gives 1 when both streams gave 0.
  unfoldable pub destroy_context : HttpContext → Streams → ℕ × Streams
  destroy_context c streams =
      let i = c.request.body_stream in
      let (r1, s1) = io.close (streams i) in
      let once : Streams = put_stream i s1 streams in
      let j = c.response.body_stream in
      let (r2, s2) = io.close (once j) in
      (if is_pos r1 0 && is_pos r2 0 then 1 else 0, put_stream j s2 once)

  -- The end of `Dispatch`. An exception of the error handler leaves it before the end.
  abbrev pub finish : Outcome ℕ → Outcome Unit
  finish none = none
  finish (some (thrown e, c, streams)) = some (thrown e, c, streams)
  finish (some (returned code, c, streams)) = some (returned tt, c, (destroy_context c streams).1)

  -- The error handler of a status code, if there is one.
  abbrev pub run_error : Bytes → ℕ → HttpContext → Streams → Option Handler → Outcome ℕ
  run_error garbage code c streams none = some (returned code, c, streams)
  run_error garbage code c streams (some h) = invoke_handler garbage h c streams

  abbrev pub after_found : Bytes → Dispatcher → Option (ℕ × HttpContext × Streams) → Outcome Unit
  after_found garbage d none = none
  after_found garbage d (some (code, c, streams)) =
      if code == Status.ok
      then finish (some (returned code, c, streams))
      else finish (run_error garbage code c streams (find code d.error_handlers))

  -- `Dispatch` on the clean path.
  unfoldable pub dispatch_clean : Bytes → Dispatcher → Bytes → HttpContext → Streams → Outcome Unit
  dispatch_clean garbage d path c streams =
      after_found garbage d (run_found garbage c streams (lookup d path c.request.method))

  abbrev pub dispatch_at : Bytes → Dispatcher → HttpContext → Streams → Option Bytes → Outcome Unit
  dispatch_at garbage d c streams none = none
  dispatch_at garbage d c streams (some path) = dispatch_clean garbage d path c streams

  -- `Dispatch`; `none` where `CleanPath` is undefined.
  unfoldable pub dispatch : Bytes → Dispatcher → HttpContext → Streams → Outcome Unit
  dispatch garbage d c streams = dispatch_at garbage d c streams (clean_path c.request.path)
