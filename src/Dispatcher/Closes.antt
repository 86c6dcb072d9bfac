-- ===== src/Dispatcher/Closes.antt =====
-- `Dispatch` ends, and closes the streams of the context: minet/src/core/IRequestDispatcher.cpp.
use minet_core.Prelude.{
  ℕ, true, Option, none, some, ◌≡◌, inl, inr, refl, sym, ap, ◌∙◌, arith, ◌==◌, Bytes, length,
  Bool-cases, Option-cases, nat_eq,
}
use mathlib.Core.Path.{subst}
use minet_core.Prelude.Map.{find}
use minet_core.Prelude.Result.{Result, returned, thrown}
use minet_core.Http.Status
use minet_core.Request.{HttpContext}
use minet_core.Io.Stream.{Stream}
use minet_core.Io.Writer.{buffer_size}
use minet_core.Path.{clean_path}
use minet_core.Response.{with_length}
use minet_core.Response.Total.{write_response-total}
use minet_core.Dispatcher.{
  Handler, Dispatcher, Found, found, no_path, no_method, lookup, Streams, Outcome, put_stream,
  dispatch, dispatch_clean, dispatch_at, after_found, run_found, run_error, caught, invoke_handler,
  after_handle, after_write, finish, destroy_context,
}

module _ {S : Type 0} (io : Stream S) (garbage : Bytes) (g : length garbage ≡ buffer_size) where
  after_handle-total :
      (streams : Streams io) (m : Result ℕ × HttpContext)
      → (r : Result ℕ) × (c : HttpContext) × (t : Streams io) × (after_handle io garbage streams m
          ≡ some (r, c, t))
  after_handle-total streams (thrown e, c) = (thrown e, c, streams, refl)
  after_handle-total streams (returned code, c) = elim (Bool-cases (code == Status.ok)) [
    | inl h ↦
        let (s, e) =
          write_response-total io garbage (streams c.response.body_stream) c.response g in
        rw h (
          returned code,
          record c { response = with_length c.response },
          put_stream io c.response.body_stream s streams,
          ap (after_write io code c streams) e,
        )
    | inr h ↦ rw h (returned code, c, streams, refl)
  ]

  caught-total :
      (m : Outcome io ℕ) (r : Result ℕ) (c : HttpContext) (t : Streams io)
      → m ≡ some (r, c, t)
      → (code : ℕ) × (c' : HttpContext) × (t' : Streams io) × (caught io m ≡ some (code, c', t'))
  caught-total m (returned code) c t e = (code, c, t, ap (caught io) e)
  caught-total m (thrown x) c t e = (Status.internal_server_error, c, t, ap (caught io) e)

  run_found-total :
      (c : HttpContext) (streams : Streams io) (f : Found)
      → (code : ℕ) × (c' : HttpContext) × (t : Streams io) × (run_found io garbage c streams f
          ≡ some (code, c', t))
  unfolding invoke_handler
  run_found-total c streams (found h) =
      let (r, c', t, e) = after_handle-total streams (h c) in
      caught-total (after_handle io garbage streams (h c)) r c' t e
  run_found-total c streams no_path = (Status.not_found, c, streams, refl)
  run_found-total c streams no_method = (Status.method_not_allowed, c, streams, refl)

  finish-total :
      (m : Outcome io ℕ) (r : Result ℕ) (c : HttpContext) (t : Streams io)
      → m ≡ some (r, c, t)
      → (r' : Result {0} Unit) × (c' : HttpContext) × (t' : Streams io) × (finish io m
          ≡ some (r', c', t'))
  finish-total m (returned code) c t e =
      (returned tt, c, (destroy_context io c t).1, ap (finish io) e)
  finish-total m (thrown x) c t e = (thrown x, c, t, ap (finish io) e)

  run_error-total :
      (code : ℕ) (c : HttpContext) (t : Streams io) (o : Option Handler)
      → (r : Result ℕ) × (c' : HttpContext) × (t' : Streams io) × (run_error io garbage code c t o
          ≡ some (r, c', t'))
  unfolding invoke_handler
  run_error-total code c t none = (returned code, c, t, refl)
  run_error-total code c t (some h) = after_handle-total t (h c)

  -- A dispatch of a path that `CleanPath` is defined on comes to an end, by a return or by an
  -- exception, whatever the handlers and the streams do.
  pub dispatch-total :
      (d : Dispatcher) (c : HttpContext) (streams : Streams io) (path : Bytes)
      → clean_path c.request.path ≡ some path
      → (r : Result {0} Unit) × (c' : HttpContext) × (t : Streams io) × (dispatch io garbage d c
            streams
          ≡ some (r, c', t))
  unfolding dispatch dispatch_clean
  dispatch-total d c streams path e =
      let (code, c', t, f) = run_found-total c streams (lookup d path c.request.method) in
      let (r, c'', t', h) = run_error-total code c' t (find code d.error_handlers) in
      rw (e, f)
        (elim (Bool-cases (code == Status.ok)) [
          | inl b ↦ rw b (finish-total (some (returned code, c', t)) (returned code) c' t refl)
          | inr b ↦ rw b (
              finish-total (run_error io garbage code c' t (find code d.error_handlers)) r c'' t' h)
        ])

module _ {S : Type 0} (io : Stream S) (Closed : S → Type 0)
    (closes : (s : S) → Closed (io.close s).1) where
  put_stream_self : (i : ℕ) (s : S) (t : Streams io) → put_stream io i s t i ≡ s
  put_stream_self i s t = let e : (i == i) ≡ true = ground arith in rw e refl

  put_stream-Closed :
      (i j : ℕ) (s : S) (t : Streams io) → Closed s → Closed (t j) → Closed (put_stream io i s t j)
  put_stream-Closed i j s t h k = elim (Bool-cases (i == j)) [ inl e ↦ rw e h | inr e ↦ rw e k ]

  destroy_context-Closed :
      (c : HttpContext) (t : Streams io)
      → Closed ((destroy_context io c t).1 c.request.body_stream)
        × Closed ((destroy_context io c t).1 c.response.body_stream)
  unfolding destroy_context
  destroy_context-Closed c t =
      let i = c.request.body_stream in
      let j = c.response.body_stream in
      let once : Streams io = put_stream io i (io.close (t i)).1 t in
      (
        put_stream-Closed j i (io.close (once j)).1 once (closes (once j))
            (subst Closed (sym (put_stream_self i (io.close (t i)).1 t)) (closes (t i))),
        subst Closed (sym (put_stream_self j (io.close (once j)).1 once)) (closes (once j)),
      )

  finish-Closed :
      (m : Outcome io ℕ) (c : HttpContext) (t : Streams io)
      → finish io m ≡ some (returned tt, c, t)
      → Closed (t c.request.body_stream) × Closed (t c.response.body_stream)
  finish-Closed none c t e = cc
  finish-Closed (some (thrown x, c', t')) c t e = cc
  finish-Closed (some (returned code, c', t')) c t e =
      let p : c' ≡ c = cc in
      let q : (destroy_context io c' t').1 ≡ t = cc in
      subst
        (λ (x : HttpContext). Closed (t x.request.body_stream) × Closed (t x.response.body_stream))
        p
        (subst
          (λ (u : Streams io).
            Closed (u c'.request.body_stream) × Closed (u c'.response.body_stream))
          q (destroy_context-Closed c' t'))

  after_found-Closed :
      (garbage : Bytes) (d : Dispatcher) (o : Option (ℕ × HttpContext × Streams io))
      (c : HttpContext) (t : Streams io)
      → after_found io garbage d o ≡ some (returned tt, c, t)
      → Closed (t c.request.body_stream) × Closed (t c.response.body_stream)
  after_found-Closed garbage d none c t e = cc
  after_found-Closed garbage d (some (code, q, u)) c t e = elim (Bool-cases (code == Status.ok)) [
    | inl b ↦ finish-Closed (some (returned code, q, u)) c t (rw b at e)
    | inr b ↦
        finish-Closed (run_error io garbage code q u (find code d.error_handlers)) c t (rw b at e)
  ]

  -- Where `Close` closes a stream, both streams of the context are closed when a dispatch returns, on
  -- whichever branch.
  pub dispatch-Closed :
      (garbage : Bytes) (d : Dispatcher) (c c' : HttpContext) (streams t : Streams io)
      → dispatch io garbage d c streams ≡ some (returned tt, c', t)
      → Closed (t c'.request.body_stream) × Closed (t c'.response.body_stream)
  unfolding dispatch dispatch_clean
  dispatch-Closed garbage d c c' streams t e = elim (Option-cases (clean_path c.request.path)) [
    | inl n ↦ cc
    | inr (path, n) ↦
        after_found-Closed garbage d
          (run_found io garbage c streams (lookup d path c.request.method)) c' t
          (sym (ap (dispatch_at io garbage d c streams) n) ∙ e)
  ]
