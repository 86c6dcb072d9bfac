-- ===== src/Async/Sound.antt =====
-- What holds of the request and of the buffers in each state of the parser:
-- minet/src/utils/AsyncParser.cpp.
use minet_core.Prelude.{
  ℕ, zero, suc, ◌≤◌, ◌<◌, Bool, true, false, [], ◌∷◌, ◌++◌, ◌≡◌, ◌≢◌, ◌⊎◌, inl, inr, refl, arith,
  ◌==◌, Bytes, length, all, all-concat, length-append, Bool-cases,
}
use minet_core.Prelude.Int.{ℤ, pos, negsuc}
use minet_core.Prelude.Result.{Result, returned, thrown, ◌>>=◌}
use minet_core.Http.{HttpMethod, HttpVersion}
use minet_core.Request.{HttpRequest, StreamRef, empty_request}
use minet_core.Async.{Parser, State, create, transit, Step, feed_in, feed, body_size}
use minet_core.Async.Chars.{is_alpha, is_path_char, is_header_value_char}
use minet_core.Async.Header.{store_header}
use minet_core.Stoi.{
  stoi, stoi_sign, stoi_digits, in_int_range, int_max, starts_with_digit, digits_onto,
}
use minet_core.Async.Run.{Progress, more, complete, failed, after_feed, after_step, run}

abbrev pub HasMethod : HttpRequest → Type 0
HasMethod r = r.method ≢ HttpMethod.invalid

-- The path starts with a slash and has only path characters.
abbrev pub IsPath : Bytes → Type 0
IsPath s = (rest : Bytes) × (s ≡ b'/' ∷ rest) × (all is_path_char s ≡ true)

-- The value of an `int`.
abbrev pub IsInt : ℤ → Type 0
IsInt (pos n) = n ≤ int_max
IsInt (negsuc n) = n ≤ int_max

-- The request line has been read; the length is zero, or what `std::stoi` gave.
pub record HasLine (r : HttpRequest) : Type 0 where
  pub method_known : HasMethod r
  pub path_is : IsPath r.path
  pub version_is : r.version ≡ HttpVersion.http_1_1
  pub length_is : IsInt r.content_length

-- Everything has been read.
pub record IsComplete (r : HttpRequest) : Type 0 where
  pub line : HasLine r
  pub filled : length r.body ≡ body_size r

-- No header or body has been read yet.
abbrev pub IsFresh : HttpRequest → Type 0
IsFresh r = (r.body ≡ []) × (r.content_length ≡ pos 0)

-- What the parser knows in each state, for a request whose body was empty at first.
abbrev pub Inv : State → Parser → Type 0
Inv State.start p = (p.token ≡ []) × IsFresh p.request
Inv State.method p = (all is_alpha p.token ≡ true) × IsFresh p.request
Inv State.space1 p = HasMethod p.request × (p.token ≡ []) × IsFresh p.request
Inv State.path p = HasMethod p.request × IsPath p.token × IsFresh p.request
Inv State.space2 p =
    HasMethod p.request × IsPath p.request.path × (p.token ≡ []) × IsFresh p.request
Inv State.version p = HasMethod p.request × IsPath p.request.path × IsFresh p.request
Inv State.body p = HasLine p.request × (length p.request.body < body_size p.request)
Inv State.done p = IsComplete p.request
Inv State.error p = (n : ℕ) × (p.error ≡ pos n) × (10 ≤ n) × (n ≤ 23)
Inv _ p = HasLine p.request × (p.request.body ≡ [])

-- The state after a step, and the number it returns: 0 in the middle of a request, 1 at its end, and
-- the code of a state from `Start` to `Body` after an error.
pub record Post (r : ℤ) (q : Parser) : Type 0 where
  pub inv : Inv q.handler q
  pub code :
      (r ≡ pos 0) × (q.handler ≢ State.done) × (q.handler ≢ State.error)
      ⊎ (r ≡ pos 1) × (q.handler ≡ State.done)
      ⊎ (r ≡ q.error) × (q.handler ≡ State.error)

abbrev Ensures : Step → Type 0
Ensures (returned (r, q)) = Post r q
Ensures (thrown e) = Unit

-- Where `std::stoi` returns, the number is an `int`.
ReturnsInt : Result ℤ → Type 0
ReturnsInt (returned n) = IsInt n
ReturnsInt (thrown e) = Unit

in_int_range-IsInt : (negative : Bool) (n : ℕ) → ReturnsInt (in_int_range negative n)
unfolding ReturnsInt
in_int_range-IsInt true zero = ground arith
in_int_range-IsInt true (suc n) = ground arith
in_int_range-IsInt false n = ground arith

stoi_digits-IsInt : (negative : Bool) (s : Bytes) → ReturnsInt (stoi_digits negative s)
unfolding stoi_digits ReturnsInt
stoi_digits-IsInt negative s = elim (Bool-cases (starts_with_digit s)) [
  | inl h ↦ rw h (in_int_range-IsInt negative (digits_onto 0 s))
  | inr h ↦ rw h tt
]

stoi-IsInt : (s : Bytes) → ReturnsInt (stoi s)
unfolding stoi stoi_sign
stoi-IsInt [] = stoi_digits-IsInt false []
stoi-IsInt (c ∷ cs) = ground (
  arith,
  stoi-IsInt cs,
  stoi_digits-IsInt true cs,
  stoi_digits-IsInt false cs,
  stoi_digits-IsInt false (c ∷ cs),
)

-- A header leaves the request line and the body alone.
abbrev Keeps : HttpRequest → Result HttpRequest → Type 0
Keeps r (returned r') = HasLine r' × (r'.body ≡ r.body)
Keeps r (thrown e) = Unit

store_header-Keeps :
    (r : HttpRequest) (key value : Bytes) → HasLine r → Keeps r (store_header r key value)
unfolding store_header ReturnsInt
store_header-Keeps r key value h = ground (arith, stoi-IsInt value)

IsPath-slash : (token : Bytes) → token ≡ [] → IsPath (token ++ (b'/' ∷ []))
unfolding is_path_char
IsPath-slash token e = rw e ([], refl, refl)

IsPath-concat : (s : Bytes) (c : ℕ) → IsPath s → is_path_char c ≡ true → IsPath (s ++ (c ∷ []))
IsPath-concat s c (rest, e, h) k = (rest ++ (c ∷ []), rw e, all-concat is_path_char s c h k)

after_store :
    (p : Parser) (m : Result HttpRequest)
    → Keeps p.request m
    → p.request.body ≡ []
    → Ensures (
        m >>= λ request. transit (record p { request = request; token = [] }) State.header_new_line)
after_store p (returned r) k e = ground arith
after_store p (thrown x) k e = tt

feed_in-Post :
    (s : State) (p : Parser) (ch : ℕ) → Inv s p → p.handler ≡ s → Ensures (feed_in s p ch)
unfolding feed_in
feed_in-Post State.method p ch i h = ground (arith, all-concat is_alpha p.token ch i.0)
feed_in-Post State.space1 p ch i h = ground (arith, IsPath-slash p.token i.1)
feed_in-Post State.path p ch i h = ground (arith, IsPath-concat p.token ch i.1)
feed_in-Post State.header_value p ch i h = elim (Bool-cases (is_header_value_char ch)) [
  | inl value ↦ rw value (ground arith)
  | inr end ↦ elim (Bool-cases (ch == b'\r')) [
    | inl cr ↦
        rw (end, cr)
          (after_store p (store_header p.request p.key p.token)
            (store_header-Keeps p.request p.key p.token i.0) i.1)
    | inr bad ↦ rw (end, bad) (ground arith)
  ]
]
feed_in-Post State.body p ch i h = ground (arith, length-append p.request.body (ch ∷ []))
feed_in-Post State.end_line p ch i h = ground arith
feed_in-Post _ p ch i h = ground arith

pub feed-Post :
    (p : Parser) (ch : ℕ) {r : ℤ} {q : Parser}
    → Inv p.handler p
    → feed p ch ≡ returned (r, q)
    → Post r q
feed-Post p ch i e = rw e at (feed_in-Post p.handler p ch i refl)

-- After a chunk: the parser's invariant, a complete request, and never a failure.
abbrev Sound : Result Progress → Type 0
Sound (returned (more q)) = Inv q.handler q
Sound (returned (complete q rest)) = IsComplete q.request
Sound (returned (failed n q rest)) = ⊥
Sound (thrown e) = Unit

after_feed-Sound :
    (r : ℤ) (q : Parser) (cs : Bytes) (rest : Result Progress)
    → Post r q
    → Sound rest
    → Sound (after_feed r q cs rest)
after_feed-Sound r q cs rest p s = ground arith

after_step-Sound :
    (m : Step) (cs : Bytes) (next : Parser → Result Progress)
    → Ensures m
    → ((q : Parser) → Inv q.handler q → Sound (next q))
    → Sound (after_step m cs next)
after_step-Sound (returned (r, q)) cs next p h = after_feed-Sound r q cs (next q) p (h q p.inv)
after_step-Sound (thrown e) cs next p h = tt

run-Sound : (bs : Bytes) (p : Parser) → Inv p.handler p → Sound (run p bs)
unfolding run
run-Sound [] p i = i
run-Sound (c ∷ cs) p i =
    after_step-Sound (feed p c) cs (λ q. run q cs) (feed_in-Post p.handler p c i refl)
      (run-Sound cs)

-- The invariant after a chunk that is used up.
pub run-Inv :
    (stream : StreamRef) (garbage : ℤ) (bs : Bytes) {q : Parser}
    → run (create (empty_request stream) garbage) bs ≡ returned (more q)
    → Inv q.handler q
run-Inv stream garbage bs e =
    rw e at (run-Sound bs (create (empty_request stream) garbage) (refl, (refl, refl)))

-- A parser that was created on an empty request, after any characters that it did not throw on.
create-Inv :
    (stream : StreamRef) (garbage : ℤ) → Inv State.start (create (empty_request stream) garbage)
create-Inv stream garbage = (refl, (refl, refl))

-- A request that the parser accepts has a known method, a path of path characters that starts with a
-- slash, version 1.1, a length that is an `int`, and a body of that length.
pub run-IsComplete :
    (stream : StreamRef) (garbage : ℤ) (bs rest : Bytes) {q : Parser}
    → run (create (empty_request stream) garbage) bs ≡ returned (complete q rest)
    → IsComplete q.request
run-IsComplete stream garbage bs rest e =
    rw e at (run-Sound bs (create (empty_request stream) garbage) (create-Inv stream garbage))

-- On no input does the parser report a failure by a negative number, which is the only report that
-- its callers test for.
pub run-never-failed :
    (stream : StreamRef) (garbage : ℤ) (bs rest : Bytes) (n : ℤ) (q : Parser)
    → run (create (empty_request stream) garbage) bs ≢ returned (failed n q rest)
run-never-failed stream garbage bs rest n q e =
    rw e at (run-Sound bs (create (empty_request stream) garbage) (create-Inv stream garbage))
