-- ===== src/Async/Header.antt =====
-- What a header does to the request: the branch at the end of a value, in `_ParseHeaderValue` of
-- minet/src/utils/AsyncParser.cpp and `_ParseHeader` of minet/src/utils/Parser.cpp.
use minet_core.Prelude.{Bytes, codes, equal, if◌then◌else◌, bytes_eq}
use minet_core.Prelude.Map.{insert}
use minet_core.Prelude.Result.{Result, returned, ◌>>=◌}
use minet_core.Request.{HttpRequest}
use minet_core.Stoi.{stoi}

-- Content-Length is converted, Content-Type and Host have fields, and any other header goes into
-- the map.
unfoldable pub store_header : HttpRequest → Bytes → Bytes → Result HttpRequest
store_header r key value =
    if equal key (codes "Content-Length")
    then (do n ← stoi value; returned (record r { content_length = n }))
    else if equal key (codes "Content-Type")
    then returned (record r { content_type = value })
    else if equal key (codes "Host")
    then returned (record r { host = value })
    else returned (record r { headers = insert key value r.headers })
