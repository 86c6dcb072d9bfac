-- ===== src/Async/Run.antt =====
-- Feeding a chunk of characters: the loop of `AsyncHttpContextBuilder::Parse`
-- (minet/src/core/HttpContext.cpp) on characters that are already read.
use minet_core.Prelude.{[], ◌∷◌, if◌then◌else◌, Bytes}
use minet_core.Prelude.Int.{ℤ, is_negative, is_pos}
use minet_core.Prelude.Result.{Result, returned, thrown}
use minet_core.Async.{Parser, Step, feed}

-- Where the loop is after a chunk.
pub data Progress : Type 0 where
  -- the chunk is used up
  more : Parser → Progress
  -- `Feed` gave 1; the characters that are left
  complete : Parser → Bytes → Progress
  -- `Feed` gave a negative number
  failed : ℤ → Parser → Bytes → Progress

-- The tests on what `Feed` returns.
abbrev pub after_feed : ℤ → Parser → Bytes → Result Progress → Result Progress
after_feed r p cs rest =
    if is_negative r
    then returned (failed r p cs)
    else if is_pos r 1
    then returned (complete p cs)
    else rest

-- One round, on what `Feed` returned; `next` is the rest of the loop.
abbrev pub after_step : Step → Bytes → (Parser → Result Progress) → Result Progress
after_step (returned (r, q)) cs next = after_feed r q cs (next q)
after_step (thrown e) cs next = thrown e

-- Every character is fed. That the loop of the source ends at a character that is not positive is in `Builder.parse`.
unfoldable pub run : Parser → Bytes → Result Progress
run p [] = returned (more p)
run p (c ∷ cs) = after_step (feed p c) cs (λ q. run q cs)
