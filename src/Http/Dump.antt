-- ===== src/Http/Dump.antt =====
-- `HttpRequest::dump` and `HttpResponse::dump` of civan/http/http.cc, as the text that they write.
use civan.Common.{
  Chars, codes, ℕ, zero, suc, ◌+◌, ◌/◌, ◌%◌, List, [], ◌∷◌, ◌++◌, Bool, not, ◌&&◌, if◌then◌else◌,
  ltb, length,
}
use civan.Http.Method.{http_method_to_string}
use civan.Http.Status.{http_status_to_string}
use civan.Http.Params.{MapType}
use civan.Http.Request.{HttpRequest, same_case}
use civan.Http.Response.{HttpResponse}

-- A number as `<<` writes it, with room for `fuel` digits more than one.
unfoldable pub digits : ℕ → ℕ → Chars
digits zero n = (b'0' + n % 10) ∷ []
digits (suc fuel) n =
    let front = digits fuel (n / 10) in
    if ltb n 10 then (b'0' + n) ∷ [] else front ++ (b'0' + n % 10) ∷ []

-- A `size_t` has 20 digits at most.
unfoldable pub decimal : ℕ → Chars
unfolding digits
decimal n = digits 19 n

abbrev pub crlf : Chars
crlf = b'\r' ∷ b'\n' ∷ []

unfoldable pub header_line : Chars → Chars → Chars
header_line key val = key ++ codes ": " ++ val ++ crlf

-- The loop over `m_headers`.
unfoldable pub header_lines : Bool → MapType → Chars
unfolding header_line same_case
header_lines websocket [] = []
header_lines websocket ((key, val) ∷ headers) =
    let rest = header_lines websocket headers in
    if not websocket && same_case key (codes "connection")
    then rest
    else header_line key val ++ rest

unfoldable pub connection_line : Bool → Bool → Chars
unfolding header_line
connection_line websocket close =
    if websocket
    then []
    else header_line (codes "connection") (if close then codes "close" else codes "keep-alive")

-- From the length of the body on.
unfoldable pub body_part : Chars → Chars
unfolding decimal
body_part [] = crlf
body_part (c ∷ body) =
    codes "content-length: " ++ decimal (length (c ∷ body)) ++ crlf ++ crlf ++ (c ∷ body)

-- `(x.empty() ? "" : mark) << x`.
unfoldable pub marked : ℕ → Chars → Chars
marked mark [] = []
marked mark (c ∷ x) = mark ∷ c ∷ x

unfoldable pub version_text : ℕ → Chars
unfolding decimal
version_text version = decimal (version / 16) ++ codes "." ++ decimal (version % 16)

unfoldable pub dump_request : HttpRequest → Chars
unfolding marked version_text connection_line header_lines body_part http_method_to_string
dump_request r =
    http_method_to_string r.method
    ++ codes " "
    ++ r.path
    ++ marked b'?' r.query
    ++ marked b'#' r.fragment
    ++ codes " HTTP/"
    ++ version_text r.version
    ++ crlf
    ++ connection_line r.websocket r.close
    ++ header_lines r.websocket r.headers
    ++ body_part r.body

-- `m_reason`, or the text of the status if it is empty.
unfoldable pub reason_text : HttpResponse → Chars
unfolding http_status_to_string
reason_text r = elim r.reason [ [] ↦ http_status_to_string r.status | c ∷ reason ↦ c ∷ reason ]

unfoldable pub cookie_lines : List Chars → Chars
unfolding header_line
cookie_lines [] = []
cookie_lines (cookie ∷ cookies) = header_line (codes "Set-Cookie") cookie ++ cookie_lines cookies

unfoldable pub dump_response : HttpResponse → Chars
unfolding version_text reason_text decimal header_lines cookie_lines connection_line body_part
dump_response r =
    codes "HTTP/"
    ++ version_text r.version
    ++ codes " "
    ++ decimal r.status
    ++ codes " "
    ++ reason_text r
    ++ crlf
    ++ header_lines r.websocket r.headers
    ++ cookie_lines r.cookies
    ++ connection_line r.websocket r.close
    ++ body_part r.body
