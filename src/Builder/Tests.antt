-- ===== src/Builder/Tests.antt =====
-- A run of the builder of minet/src/core/HttpContext.cpp on a buffer.
use minet_core.Prelude.{
  ℕ, zero, suc, [], ◌∷◌, ◌≡◌, inl, refl, arith, Bytes, codes, equal, true, All, all, ltb, ◌&&◌,
}
use minet_core.Prelude.Int.{pos}
use minet_core.Prelude.Result.{returned}
use minet_core.Http.{HttpMethod, HttpVersion, method_from_string}
use minet_core.Io.BufferInput.{BufferInputStream, open_buffer, buffer_stream}
use minet_core.Io.BufferInput.Holds.{buffer_holding, open_buffer-Holds}
use minet_core.Io.Reader.Content.{Delivers}
use minet_core.Async.{Parser, State, feed_in}
use minet_core.Async.Chars.{is_alpha, is_path_char, is_header_key_char}
use minet_core.Async.Run.{complete, run}
use minet_core.Builder.{Builder, create, parse}
use minet_core.Builder.Parses.{IsText, Completes, parse-run}

abbrev zeros : ℕ → Bytes
zeros zero = []
zeros (suc n) = 0 ∷ zeros n

-- `GET /a` and one byte more
abbrev input : Bytes
input = codes "GET /a HTTP/1.1\r\n\r\nG"

abbrev builder : Builder BufferInputStream
builder = create (codes "10.0.0.1") 0 (open_buffer input) (zeros 1024) (pos 0)

abbrev accepted : Parser
accepted = record (builder.parser) {
  handler = State.done;
  request = record (builder.parser.request) {
    method = HttpMethod.get;
    version = HttpVersion.http_1_1;
    path = codes "/a";
  };
}

run-input : run builder.parser input ≡ returned (complete accepted (codes "G"))
unfolding run feed_in is_alpha is_path_char is_header_key_char method_from_string equal
run-input = refl

builder-Delivers : Delivers buffer_stream buffer_holding builder.reader input
builder-Delivers = record {
  valid = record { size_is = refl; ordered = omega arith; bounded = omega arith };
  left = inl (refl, (input, refl, open_buffer-Holds input));
}

all-IsText : (bs : Bytes) → all (λ c. ltb 0 c && ltb c 128) bs ≡ true → All IsText bs
all-IsText [] h = tt
all-IsText (c ∷ cs) h = ((ground arith, ground arith), all-IsText cs (ground arith))

parse-run_example :
    Completes buffer_stream buffer_holding accepted (codes "G") (parse buffer_stream 21 builder)
parse-run_example =
    parse-run buffer_stream buffer_holding input (codes "G") accepted builder 21
      (all-IsText input refl) builder-Delivers (omega arith) run-input
