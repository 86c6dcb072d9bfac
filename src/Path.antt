-- ===== src/Path.antt =====
-- Paths of routes: `CleanPath` of minet/src/utils/Parser.cpp.
pub mod Clean
use minet_core.Prelude.{
  ℕ, Bool, true, false, List, [], ◌∷◌, ◌++◌, Option, none, some, ◌==◌, if◌then◌else◌, Bytes,
}

-- The path with a slash in front. `front()` of the empty string is undefined.
abbrev pub with_front : Bytes → Option Bytes
with_front [] = none
with_front (c ∷ cs) = if c == b'/' then some (c ∷ cs) else some (b'/' ∷ c ∷ cs)

-- The bytes from the last to the first.
abbrev pub backwards : Bytes → Bytes → Bytes
backwards [] out = out
backwards (c ∷ cs) out = backwards cs (c ∷ out)

-- The `while` loop, on the string from its back. `back()` of the empty string is undefined.
unfoldable pub pop_slashes : Bytes → Option Bytes
pop_slashes [] = none
pop_slashes (c ∷ cs) = if c == b'/' then pop_slashes cs else some (c ∷ cs)

abbrev pub forwards : Option Bytes → Option Bytes
forwards none = none
forwards (some s) = some (backwards s [])

abbrev pub pop_back : Option Bytes → Option Bytes
pop_back none = none
pop_back (some s) = forwards (pop_slashes (backwards s []))

-- `CleanPath`; `none` where its behaviour is undefined.
unfoldable pub clean_path : Bytes → Option Bytes
clean_path path = pop_back (with_front path)
