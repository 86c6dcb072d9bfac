-- ===== src/Http/Names.antt =====
-- The names of the methods: minet/src/common/Http.cpp.
use minet_core.Prelude.{◌≡◌, refl, ◌≢◌, arith, Bytes, codes, equal, equal_iff}
use minet_core.Http.{HttpMethod, method_to_string, method_from_string}

-- Reading the name of any method gives that method.
pub from_string-to_string : (m : HttpMethod) → method_from_string (method_to_string m) ≡ m
unfolding method_from_string method_to_string equal
from_string-to_string HttpMethod.get = refl
from_string-to_string _ = refl

-- A text that is read as a method is that method's name.
pub to_string-from_string :
    (s : Bytes)
    → method_from_string s ≢ HttpMethod.invalid
    → method_to_string (method_from_string s) ≡ s
unfolding method_from_string method_to_string
to_string-from_string s h = ground (
  arith,
  equal_iff s (codes "GET"),
  equal_iff s (codes "POST"),
  equal_iff s (codes "PUT"),
  equal_iff s (codes "DELETE"),
  equal_iff s (codes "HEAD"),
  equal_iff s (codes "OPTIONS"),
  equal_iff s (codes "TRACE"),
  equal_iff s (codes "PATCH"),
)
