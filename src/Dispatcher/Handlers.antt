-- ===== src/Dispatcher/Handlers.antt =====
-- Handlers built from functions on texts, and the handlers of errors: `RequestHandlerImpl` of
-- minet/include/minet/components/RequestHandler.h with text requests and responses, and
-- minet/src/impl/DefaultHandlers.cpp.
use minet_core.Prelude.{ℕ, codes}
use minet_core.Prelude.Result.{Result, returned, thrown}
use minet_core.Http.{status_code_to_description}
use minet_core.Http.Status
use minet_core.Request.{HttpRequest, HttpResponse, HttpContext}
use minet_core.Dispatcher.{Handler, Dispatcher, register_error_handler}

-- A `RequestHandlerFn` on a request and the response that it changes, also when it throws.
abbrev pub TextHandler : Type 0
TextHandler = HttpRequest → HttpResponse → Result Unit × HttpResponse

-- `PostHandle` of a text response
abbrev pub post_handle : HttpResponse → HttpResponse
post_handle r = record r { content_type = codes "text/plain" }

abbrev pub after_function : HttpContext → Result {0} Unit × HttpResponse → Result ℕ × HttpContext
after_function c (thrown e, r) = (thrown e, record c { response = r })
after_function c (returned u, r) = (returned Status.ok, record c { response = post_handle r })

-- `Handle`. A text request is always valid.
unfoldable pub bind : TextHandler → Handler
bind f c = after_function c (f c.request c.response)

-- `DefaultErrorHandler`
abbrev pub default_error_handler : ℕ → HttpResponse → HttpResponse
default_error_handler code r = record r {
  status_code = code;
  body = status_code_to_description code;
}

-- `BadRequestHandler`, `MethodNotAllowedHandler`, `NotFoundHandler` and
-- `InternalServerErrorHandler`, each with its code
abbrev pub error_function : ℕ → TextHandler
error_function code request response = (returned tt, default_error_handler code response)

-- `RegisterDefaultHandlers`
unfoldable pub register_default_handlers : Dispatcher → Dispatcher
register_default_handlers d =
    register_error_handler Status.internal_server_error
      (bind (error_function Status.internal_server_error))
      (register_error_handler Status.not_found (bind (error_function Status.not_found)) (
        register_error_handler Status.method_not_allowed
          (bind (error_function Status.method_not_allowed))
          (register_error_handler Status.bad_request (bind (error_function Status.bad_request)) d)))
