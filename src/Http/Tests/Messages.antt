-- ===== src/Http/Tests/Messages.antt =====
-- Runs of requests and responses of civan/http/http.cc, and of their theorems.
use civan.Common.{
  Chars, codes, List, ◌≡◌, refl, ◌∷◌, [], arith, true, false, none, not, if◌then◌else◌,
}
use civan.Common.SortedMap.{find, insert, assign, equivalent}
use civan.Util.Url.{char_is_unreserved, url_decode}
use civan.Util.Trim.{trim, blanks}
use civan.Http.CaseInsensitive.{case_insensitive_less}
use civan.Http.Params.{parse_param}
use civan.Http.Scan.{scan, insert_all, parse_param-scan}
use civan.Http.Query.{format_params, insert_params, AreParams, parse_param-format_params}
use civan.Util.Safe.{is_safe}
use civan.Http.Request.{
  HttpRequest, new_request, value_or, find_case, same_case, set_header, set_param, del_param,
  del_header, get_param, get_cookie, set_cookie, init, get_header,
}
use civan.Http.Response.{new_response, set_redirect, response_header, del_response_header}
use civan.Http.Dump.{decimal, dump_request, dump_response}
use civan.Http.Lookup.{same_key, get_header-set_header}
use civan.Http.Lazy.{pending, get_param-set_param, get_param-del_param, get_cookie-set_cookie}
use civan.Http.Fresh.{first_value, get_param-format_params, get_cookie-format_params}
use civan.Http.Connection.{
  dump_request-del_header, dump_response-del_response_header, init-set_header,
  response_header-set_redirect,
}
use civan.Http.Decimal.{number_of, number_of-decimal}
use civan.Http.Order.{made, called, IsOrdered, param_set, Reached-IsOrdered}

abbrev asked : HttpRequest
asked = record (new_request 17 false) { query = codes "a=1&b=x+y&A=2" }

query_run : (get_param (codes "B") [] asked).0 ≡ codes "x y"
unfolding get_param new_request find insert case_insensitive_less url_decode
query_run = refl

dump_run :
    dump_request (set_header (codes "Connection") (codes "x") asked)
    ≡ codes "GET /?a=1&b=x+y&A=2 HTTP/1.1\r\nconnection: keep-alive\r\n\r\n"
unfolding dump_request new_request set_header assign
dump_run = refl

abbrev two_params : List (Chars × Chars)
two_params = (codes "a", codes "1&") ∷ (codes " b", codes "2") ∷ []

two_params-AreParams : AreParams two_params
two_params-AreParams =
    ((refl, tt), (omega arith, (omega arith, tt)), ((refl, (refl, tt)), (omega arith, tt), tt))

parse_param-scan_example :
    parse_param (λ key. key) b'&' (codes "a=1&b") []
    ≡ insert_all (λ key. key) (scan b'&' none [] (codes "a=1&b")) []
parse_param-scan_example = parse_param-scan (λ key. key) b'&' (codes "a=1&b") []

parse_param-format_params_run :
    parse_param (λ key. trim key blanks) b';' (format_params b';' two_params) []
    ≡ insert_params (λ key. trim key blanks) two_params []
unfolding is_safe char_is_unreserved
parse_param-format_params_run =
    parse_param-format_params (λ key. trim key blanks) b';' two_params [] refl two_params-AreParams

get_param-format_params_example :
    (get_param
      (codes "A")
      []
      (record (new_request 17 true) { query = format_params b'&' two_params })).0
    ≡ value_or (first_value (λ key. key) (codes "A") two_params) []
get_param-format_params_example =
    get_param-format_params (codes "A") [] two_params 17 true two_params-AreParams

get_cookie-format_params_example :
    (get_cookie
      (codes "B")
      []
      (set_header (codes "Cookie") (format_params b';' two_params) (new_request 17 true))).0
    ≡ value_or (first_value (λ key. trim key blanks) (codes "B") two_params) []
get_cookie-format_params_example =
    get_cookie-format_params (codes "B") [] two_params 17 true two_params-AreParams

get_header-set_header_run :
    get_header (codes "HOST") [] (set_header (codes "Host") (codes "h") asked) ≡ (
      if same_key (codes "Host") (codes "HOST")
      then codes "h"
      else get_header (codes "HOST") [] asked)
get_header-set_header_run = get_header-set_header (codes "HOST") (codes "Host") (codes "h") [] asked

get_param-set_param_example :
    (get_param (codes "a") [] (set_param (codes "A") (codes "3") asked)).0
    ≡ (if same_key (codes "A") (codes "a") then codes "3" else (get_param (codes "a") [] asked).0)
get_param-set_param_example = get_param-set_param (codes "a") (codes "A") (codes "3") [] asked

get_cookie-set_cookie_run :
    (get_cookie (codes "a") [] (set_cookie (codes "A") (codes "3") asked)).0
    ≡ (if same_key (codes "A") (codes "a") then codes "3" else (get_cookie (codes "a") [] asked).0)
get_cookie-set_cookie_run = get_cookie-set_cookie (codes "a") (codes "A") (codes "3") [] asked

get_param-del_param_example : (get_param (codes "a") [] (del_param (codes "a") asked)).0 ≡ (
    if same_key (codes "a") (codes "a")
    then value_or (find_case (codes "a") (insert_all (λ key. key) (pending asked) [])) []
    else (get_param (codes "a") [] asked).0)
unfolding new_request
get_param-del_param_example = get_param-del_param (codes "a") (codes "a") [] asked tt

Reached-IsOrdered_run : IsOrdered (set_param (codes "a") (codes "1") (new_request 17 true))
Reached-IsOrdered_run =
    Reached-IsOrdered (set_param (codes "a") (codes "1") (new_request 17 true)) (
      called (new_request 17 true) (set_param (codes "a") (codes "1") (new_request 17 true))
        (made 17 true) (param_set (codes "a") (codes "1") (new_request 17 true)))

dump_request-del_header_example :
    dump_request (del_header (codes "connection") asked) ≡ dump_request asked
unfolding new_request
dump_request-del_header_example = dump_request-del_header asked refl

dump_response-del_response_header_run :
    dump_response (del_response_header (codes "connection") (new_response 17 true))
    ≡ dump_response (new_response 17 true)
unfolding new_response
dump_response-del_response_header_run =
    dump_response-del_response_header (new_response 17 true) refl

init-set_header_run :
    (init (set_header (codes "Connection") (codes "Keep-Alive") asked)).close
    ≡ not (same_case (codes "Keep-Alive") (codes "keep-alive"))
unfolding case_insensitive_less equivalent
init-set_header_run = init-set_header (codes "Connection") (codes "Keep-Alive") asked refl

response_header-set_redirect_run :
    ((set_redirect (codes "/x") (new_response 17 true)).status ≡ 302)
    × (response_header (codes "location") [] (set_redirect (codes "/x") (new_response 17 true)) ≡ (
        if same_key (codes "Location") (codes "location")
        then codes "/x"
        else response_header (codes "location") [] (new_response 17 true)))
response_header-set_redirect_run =
    response_header-set_redirect (codes "location") (codes "/x") [] (new_response 17 true)

number_of-decimal_run : number_of 0 (decimal 120) ≡ 120
number_of-decimal_run = number_of-decimal 120 (omega arith)
