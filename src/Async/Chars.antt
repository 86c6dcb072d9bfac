-- ===== src/Async/Chars.antt =====
-- The classes of characters: `details` of minet/src/utils/AsyncParser.cpp. A `char` is its byte; the
-- "C" locale has no letter or digit above 127.
use minet_core.Prelude.{ℕ, Bool, false, ◌&&◌, ◌||◌, [], ◌∷◌, leb, ◌==◌, Bytes, codes}
use minet_core.Stoi.{is_digit}

-- `isalpha`
unfoldable pub is_alpha : ℕ → Bool
is_alpha c = leb b'A' c && leb c b'Z' || leb b'a' c && leb c b'z'

-- `isalnum`
unfoldable pub is_alnum : ℕ → Bool
unfolding is_alpha
is_alnum c = is_alpha c || is_digit c

abbrev contains : Bytes → ℕ → Bool
contains [] c = false
contains (x ∷ xs) c = x == c || contains xs c

-- `strchr(s, c) != nullptr`, which finds the terminator of `s` too.
abbrev pub strchr : Bytes → ℕ → Bool
strchr s c = contains s c || c == 0

-- `IsPathChar`
unfoldable pub is_path_char : ℕ → Bool
unfolding is_alnum
is_path_char c = is_alnum c || strchr (codes "-._~:/?#[]@!$&'()*+,;=") c

-- `IsHeaderKeyChar`
unfoldable pub is_header_key_char : ℕ → Bool
unfolding is_alnum
is_header_key_char c = is_alnum c || c == b'-'

-- `IsHeaderValueChar`
unfoldable pub is_header_value_char : ℕ → Bool
is_header_value_char c = leb 33 c && leb c 126 || c == b'\t' || c == b' '
