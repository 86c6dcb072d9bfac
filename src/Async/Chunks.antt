-- ===== src/Async/Chunks.antt =====
-- Input that comes in several chunks, input after an error, and a negative Content-Length:
-- minet/src/utils/AsyncParser.cpp under the loop of minet/src/core/HttpContext.cpp.
use Prim.Native.Nat.{ℕ, ◌+◌, ◌^◌, ◌≤◌, ◌<◌}
use minet_core.Prelude.{
  [], ◌∷◌, ◌++◌, ◌≡◌, refl, ap, ◌∙◌, arith, Bytes, length, length-append, append-nil, append_assoc,
}
use minet_core.Prelude.Int.{ℤ, negsuc}
use minet_core.Prelude.Result.{Result, returned, thrown, ◌>>=◌}
use minet_core.Stoi.{int_max}
use minet_core.Request.{StreamRef, empty_request}
use minet_core.Async.{Parser, State, Step, create, feed, feed_in}
use minet_core.Async.Run.{Progress, more, complete, failed, after_feed, after_step, run}
use minet_core.Async.Pieces.{push_body, feed_body_more, feed-eq}
use mathlib.Core.Path.{subst}
use minet_core.Async.Sound.{Inv, run-Inv}

-- Going on with a second chunk.
unfoldable resume : Progress → Bytes → Result Progress
resume (more p) ys = run p ys
resume (complete p rest) ys = returned (complete p (rest ++ ys))
resume (failed r p rest) ys = returned (failed r p (rest ++ ys))

after_feed-append :
    (r : ℤ) (q : Parser) (cs ys : Bytes) (m : Result Progress)
    → after_feed r q (cs ++ ys) (do t ← m; resume t ys) ≡ (do t ← after_feed r q cs m; resume t ys)
unfolding resume
after_feed-append r q cs ys m = ground arith

after_step-append :
    (m : Step) (cs ys : Bytes) (next next' : Parser → Result Progress)
    → ((q : Parser) → next' q ≡ (do t ← next q; resume t ys))
    → after_step m (cs ++ ys) next' ≡ (do t ← after_step m cs next; resume t ys)
after_step-append (returned (r, q)) cs ys next next' h =
    ap (after_feed r q (cs ++ ys)) (h q) ∙ after_feed-append r q cs ys (next q)
after_step-append (thrown e) cs ys next next' h = refl

-- A run on two pieces of input is a run on the first that goes on with the second.
run-append : (xs ys : Bytes) (p : Parser) → run p (xs ++ ys) ≡ (do t ← run p xs; resume t ys)
unfolding run
run-append [] ys p = unfold resume in refl
run-append (c ∷ cs) ys p =
    after_step-append (feed p c) cs ys (λ q. run q cs) (λ q. run q (cs ++ ys)) (run-append cs ys)

feed-error : (p : Parser) (c : ℕ) → p.handler ≡ State.error → feed p c ≡ returned (p.error, p)
unfolding feed_in
feed-error p c h = rw h

run-error :
    (ys : Bytes) (p : Parser)
    → p.handler ≡ State.error
    → Inv State.error p
    → run p ys ≡ returned (more p)
unfolding run
run-error [] p h i = refl
run-error (y ∷ ys) p h (n, e, lo, hi) =
    ap (λ m. after_step m ys (λ q. run q ys)) (feed-error p y h ∙ ap (λ z. returned (z, p)) e)
    ∙ rw (run-error ys p h (n, e, lo, hi)) (ground arith)

-- When the parser has taken some input of a request and is in the state of errors, then it takes whatever input
-- follows, asks for more, and is as it was: the error is never reported to the caller.
pub run-append_error :
    (stream : StreamRef) (garbage : ℤ) (xs ys : Bytes) {q : Parser}
    → run (create (empty_request stream) garbage) xs ≡ returned (more q)
    → q.handler ≡ State.error
    → run (create (empty_request stream) garbage) (xs ++ ys) ≡ returned (more q)
unfolding resume
run-append_error stream garbage xs ys {q} e h =
    run-append xs ys (create (empty_request stream) garbage)
    ∙ rw e (run-error ys q h (subst (λ s. Inv s q) h (run-Inv stream garbage xs e)))

-- In the state of the body, with a Content-Length that is negative (an `int`), the parser takes any input, adds it to
-- the body and asks for more, as long as the body stays below 2 ^ 63 characters: the request has no end.
pub run-negative_length :
    (bs : Bytes) (p : Parser) (n : ℕ)
    → p.handler ≡ State.body
    → p.request.content_length ≡ negsuc n
    → n ≤ int_max
    → length p.request.body + length bs < 2 ^ 63
    → run p bs
      ≡ returned (more (record p { request = record (p.request) { body = p.request.body ++ bs } }))
unfolding run
run-negative_length [] p n h e s l = rw append-nil
run-negative_length (c ∷ cs) p n h e s l =
    ap (λ t. after_step t cs (λ q. run q cs))
      (feed-eq p State.body c h ∙ feed_body_more p c (rw e (omega arith)))
    ∙ run-negative_length cs (record p { request = push_body p.request c }) n h e s
        (omega (arith, length-append p.request.body (c ∷ [])))
    ∙ rw append_assoc
