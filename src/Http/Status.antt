-- ===== src/Http/Status.antt =====
-- `http::status`: minet/include/minet/common/Http.h.
use Prim.Native.Nat.{ℕ}

abbrev pub ok : ℕ
ok = 200

abbrev pub no_content : ℕ
no_content = 204

abbrev pub bad_request : ℕ
bad_request = 400

abbrev pub not_found : ℕ
not_found = 404

abbrev pub method_not_allowed : ℕ
method_not_allowed = 405

abbrev pub internal_server_error : ℕ
internal_server_error = 500
