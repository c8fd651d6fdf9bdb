-- ===== src/Http/Connection.antt =====
-- The `connection` header of the messages of civan/http/http.cc: where `init` reads it and where `dump`
-- writes it.

use civan.Common.{
  Chars, codes, [], ◌∷◌, Bool, true, false, not, ◌&&◌, if◌then◌else◌, ◌≡◌, refl, ◌∙◌, arith,
}
use civan.Common.SortedMap.{erase, equivalent}
use civan.Http.CaseInsensitive.{case_insensitive_less, strcasecmp, c_str, is_lt, is_eq}
use civan.Http.Params.{MapType}
use civan.Http.Request.{HttpRequest, same_case, get_header, set_header, del_header, init}
use civan.Http.Response.{
  HttpResponse, response_header, set_response_header, del_response_header, set_redirect,
}
use civan.Http.Dump.{header_lines, dump_request, dump_response}
use civan.Http.Lookup.{same_key, get_header-set_header, value_assigned}

same_chars :
    (s t : Chars)
    → is_eq (strcasecmp s t) ≡ (not (is_lt (strcasecmp s t)) && not (is_lt (strcasecmp t s)))
unfolding strcasecmp is_lt is_eq
same_chars [] [] = refl
same_chars [] (d ∷ t) = refl
same_chars (c ∷ s) [] = refl
same_chars (c ∷ s) (d ∷ t) = ground (arith, same_chars s t)

-- `strcasecmp` and `CaseInsensitiveLess` agree on which keys are the same.
pub same_case-same_key : (a b : Chars) → same_case a b ≡ same_key a b
unfolding same_case equivalent case_insensitive_less
same_case-same_key a b = same_chars (c_str a) (c_str b)

header_lines-erase :
    (headers : MapType)
    → header_lines false (erase case_insensitive_less (codes "connection") headers)
      ≡ header_lines false headers
unfolding header_lines erase equivalent
header_lines-erase [] = refl
header_lines-erase ((key, val) ∷ headers) =
    ground (arith, header_lines-erase headers, same_case-same_key key (codes "connection"))

-- Unless it is a websocket, `dump` of a request writes no `connection` header of its map, only its own.
pub dump_request-del_header :
    (r : HttpRequest)
    → r.websocket ≡ false
    → dump_request (del_header (codes "connection") r) ≡ dump_request r
unfolding dump_request del_header
dump_request-del_header r h = rw (h, header_lines-erase r.headers) refl

pub dump_response-del_response_header :
    (r : HttpResponse)
    → r.websocket ≡ false
    → dump_response (del_response_header (codes "connection") r) ≡ dump_response r
unfolding dump_response del_response_header
dump_response-del_response_header r h = rw (h, header_lines-erase r.headers) refl

-- After `setRedirect` the status is 302 and each spelling of `Location` gives the URI; other headers
-- are as before.
pub response_header-set_redirect :
    (j uri def : Chars) (r : HttpResponse)
    → ((set_redirect uri r).status ≡ 302)
      × (response_header j def (set_redirect uri r)
          ≡ (if same_key (codes "Location") j then uri else response_header j def r))
unfolding set_redirect response_header set_response_header
response_header-set_redirect j uri def r =
    (refl, value_assigned j (codes "Location") uri def r.headers)

init_close :
    (conn : Chars) (r : HttpRequest)
    → get_header (codes "connection") [] r ≡ conn
    → (init r).close ≡ elim conn as (λ x. Bool) [
      | [] ↦ r.close
      | c ∷ rest ↦ not (same_case (c ∷ rest) (codes "keep-alive"))
    ]
unfolding init
init_close [] r h = rw (init, h) refl
init_close (c ∷ conn) r h = rw (init, h) refl

-- Where a request says `connection` in some spelling, `init` takes it for one to close unless it says
-- `keep-alive` in some spelling; if the value is empty, it stays what it was.
pub init-set_header :
    (k val : Chars) (r : HttpRequest)
    → same_key k (codes "connection") ≡ true
    → (init (set_header k val r)).close ≡ elim val as (λ x. Bool) [
      | [] ↦ r.close
      | c ∷ rest ↦ not (same_case (c ∷ rest) (codes "keep-alive"))
    ]
unfolding set_header
init-set_header k val r h =
    init_close val (set_header k val r)
      (get_header-set_header (codes "connection") k val [] r ∙ rw h refl)
