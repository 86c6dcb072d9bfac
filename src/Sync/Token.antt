-- ===== src/Sync/Token.antt =====
-- The tokens of the synchronous parser: `_Next`, `_Rewind`, `_NextToken` and `_NextString` of
-- minet/src/utils/Parser.cpp.
use minet_core.Prelude.{
  ℕ, zero, suc, ◌-◌, ◌%◌, Bool, false, ◌||◌, [], ◌∷◌, ◌++◌, ◌==◌, if◌then◌else◌, Bytes, codes,
}
use minet_core.Prelude.Int.{ℤ, pos, negsuc, is_pos}
use minet_core.Request.{HttpRequest}
use minet_core.Async.Chars.{strchr}
use minet_core.Io.Stream.{Stream}
use minet_core.Io.Reader.{Reader, read, char_to_int}
use minet_core.Sync.Calls.{Outcome, returned, out_of_fuel, ◌>>=◌}

-- `RequestTokenType`
pub data TokenType : Type 0 where
  invalid string space colon new_line end : TokenType

-- The value of the enumerator, by which two types are compared.
abbrev type_index : TokenType → ℕ
type_index invalid = 0
type_index string = 1
type_index space = 2
type_index colon = 3
type_index new_line = 4
type_index end = 5

abbrev pub type_beq : TokenType → TokenType → Bool
type_beq a b = type_index a == type_index b

pub record RequestToken : Type 0 where
  pub type : TokenType
  pub value : Bytes

-- `next` is a `char`; 0 means that none was given back.
pub record RequestParser (S : Type 0) : Type 0 where
  pub reader : Reader S
  pub request : HttpRequest
  pub current : RequestToken
  pub next : ℕ

-- The constructor.
abbrev pub create : {S : Type 0} → Reader S → HttpRequest → RequestParser S
create reader request = record {
  reader = reader;
  request = request;
  current = record { type = invalid; value = [] };
  next = 0;
}

-- `ch == -1`
abbrev pub is_eof : ℤ → Bool
is_eof (pos n) = false
is_eof (negsuc n) = n == 0

-- `static_cast<char>(ch)`
abbrev pub to_char : ℤ → ℕ
to_char (pos n) = n % 256
to_char (negsuc n) = 255 - n % 256

-- `(ch == -1) || (strchr(delimiters, ch) != nullptr)`
abbrev pub is_end : Bytes → ℤ → Bool
is_end delimiters ch = is_eof ch || strchr delimiters (to_char ch)

module _ {S : Type 0} (io : Stream S) where
  -- `_Next`
  unfoldable pub next_char : RequestParser S → ℤ × RequestParser S
  next_char p =
      if p.next == 0
      then (let (ch, r) = read io p.reader in (ch, record p { reader = r }))
      else (char_to_int p.next, record p { next = 0 })

  -- `_Rewind`, with assertions compiled out
  abbrev pub rewind : RequestParser S → ℕ → RequestParser S
  rewind p c = record p { next = c }

  abbrev pub set_type : RequestParser S → TokenType → RequestParser S
  set_type p t = record p { current = record (p.current) { type = t } }

  abbrev pub push_char : RequestParser S → ℤ → RequestParser S
  push_char p ch = record p {
    current = record (p.current) { value = p.current.value ++ (to_char ch ∷ []) };
  }

  -- The `while` that collects a string, on fuel, and the `_Rewind` after it.
  unfoldable pub collect : ℕ → Bytes → ℤ → RequestParser S → Outcome (RequestParser S)
  collect zero delimiters ch p = out_of_fuel
  collect (suc fuel) delimiters ch p =
      let (c, q) = next_char (push_char p ch) in
      let more = collect fuel delimiters c q in
      if is_end delimiters ch
      then returned (if is_eof ch then p else rewind p (to_char ch))
      else more

  -- `_currentToken.Type = String; _currentToken.Value.clear();`
  abbrev pub start_string : RequestParser S → RequestParser S
  start_string p = record p { current = record { type = string; value = [] } }

  -- After `\\r`
  abbrev pub end_line : RequestParser S → RequestParser S
  end_line p =
      let (ch, q) = next_char p in set_type q (if is_pos ch b'\n' then new_line else invalid)

  -- `_NextToken`
  unfoldable pub next_token : ℕ → RequestParser S → Outcome (RequestParser S)
  next_token fuel p =
      let (ch, q) = next_char p in
      if is_eof ch
      then returned (set_type q end)
      else if is_pos ch b' '
      then returned (set_type q space)
      else if is_pos ch b':'
      then returned (set_type q colon)
      else if is_pos ch b'\r'
      then returned (end_line q)
      else collect fuel (codes " :\r\n") ch (start_string q)

  -- The `while` that skips spaces, on fuel.
  unfoldable pub skip_spaces : ℕ → ℤ → RequestParser S → Outcome (ℤ × RequestParser S)
  skip_spaces zero ch p = out_of_fuel
  skip_spaces (suc fuel) ch p =
      let (c, q) = next_char p in
      let more = skip_spaces fuel c q in if is_pos ch b' ' then more else returned (ch, p)

  -- `_NextString` after the spaces
  abbrev pub string_from : ℕ → ℤ → RequestParser S → Outcome (RequestParser S)
  string_from fuel ch p =
      if is_eof ch
      then returned (set_type p end)
      else if is_pos ch b'\r'
      then returned (end_line p)
      else collect fuel (codes "\r\n") ch (start_string p)

  -- `_NextString`
  unfoldable pub next_string : ℕ → RequestParser S → Outcome (RequestParser S)
  next_string fuel p =
      let (ch, q) = next_char p in
      if is_eof ch
      then returned (set_type q end)
      else (do (c, r) ← skip_spaces fuel ch q; string_from fuel c r)
