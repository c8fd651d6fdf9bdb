-- ===== src/Http/Response.antt =====
-- `HttpResponse` of civan/http/http.h and civan/http/http.cc, less its `dump`. A status is its number.
use civan.Common.{Chars, codes, ℕ, List, [], ◌∷◌, ◌++◌, Bool, false, if◌then◌else◌, ltb}
use civan.Common.SortedMap.{assign, erase}
use civan.Http.CaseInsensitive.{case_insensitive_less}
use civan.Http.Params.{MapType}
use civan.Http.Request.{HttpRequest, value_or, find_case}

pub record HttpResponse : Type 0 where
  pub status : ℕ
  pub version : ℕ
  pub close : Bool
  pub websocket : Bool
  pub body : Chars
  pub reason : Chars
  pub headers : MapType
  pub cookies : List Chars

unfoldable pub new_response : ℕ → Bool → HttpResponse
new_response version close = record {
  status = 200;
  version = version;
  close = close;
  websocket = false;
  body = [];
  reason = [];
  headers = [];
  cookies = [];
}

unfoldable pub create_response : HttpRequest → HttpResponse
unfolding new_response
create_response r = new_response r.version r.close

unfoldable pub response_header : Chars → Chars → HttpResponse → Chars
response_header key def r = value_or (find_case key r.headers) def

unfoldable pub set_response_header : Chars → Chars → HttpResponse → HttpResponse
set_response_header key val r = record r {
  headers = assign case_insensitive_less key val r.headers;
}

unfoldable pub del_response_header : Chars → HttpResponse → HttpResponse
del_response_header key r = record r { headers = erase case_insensitive_less key r.headers }

unfoldable pub set_redirect : Chars → HttpResponse → HttpResponse
unfolding set_response_header
set_redirect uri r = set_response_header (codes "Location") uri (record r { status = 302 })

-- A field of a cookie that is left out where the string is empty.
unfoldable pub cookie_field : Chars → Chars → Chars
cookie_field name [] = []
cookie_field name (c ∷ val) = name ++ (c ∷ val)

-- `time_to_str` is `Time2Str` with the format that the code gives, which asks the C library. A negative
-- `expired` has the effect of 0.
unfoldable pub add_cookie :
    (ℕ → Chars) → Chars → Chars → ℕ → Chars → Chars → Bool → HttpResponse → HttpResponse
unfolding cookie_field
add_cookie time_to_str key val expired path domain secure r = record r {
  cookies =
      r.cookies
      ++ (key
          ++ codes "="
          ++ val
          ++ (if ltb 0 expired
              then codes ";expires=" ++ time_to_str expired ++ codes " GMT"
              else [])
          ++ cookie_field (codes ";domain=") domain
          ++ cookie_field (codes ";path=") path
          ++ (if secure then codes ";secure" else []))
        ∷ [];
}
