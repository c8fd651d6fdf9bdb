-- ===== src/Http/Method.antt =====
-- The methods and status codes of civan/http/http.h, and their strings in civan/http/http.cc.
use civan.Common.{
  ℕ, List, [], ◌∷◌, none, some, Bool, true, false, ◌&&◌, ◌==◌, if◌then◌else◌, get_elem?, Chars,
  codes, equal_chars,
}

-- `enum class HttpMethod`.
pub data HttpMethod : Type 0 where
  delete get head post put connect options trace : HttpMethod
  copy lock mkcol move propfind proppatch search unlock : HttpMethod
  bind rebind unbind acl report mkactivity checkout merge : HttpMethod
  msearch notify subscribe unsubscribe patch purge mkcalendar link : HttpMethod
  unlink source invalid_method : HttpMethod

-- The value of a method.
unfoldable pub number : HttpMethod → ℕ
number delete = 0
number get = 1
number head = 2
number post = 3
number put = 4
number connect = 5
number options = 6
number trace = 7
number copy = 8
number lock = 9
number mkcol = 10
number move = 11
number propfind = 12
number proppatch = 13
number search = 14
number unlock = 15
number bind = 16
number rebind = 17
number unbind = 18
number acl = 19
number report = 20
number mkactivity = 21
number checkout = 22
number merge = 23
number msearch = 24
number notify = 25
number subscribe = 26
number unsubscribe = 27
number patch = 28
number purge = 29
number mkcalendar = 30
number link = 31
number unlink = 32
number source = 33
number invalid_method = 34

-- `HTTP_METHOD_MAP`, in its order.
unfoldable pub method_map : List (HttpMethod × Chars)
method_map =
    (delete, codes "DELETE")
    ∷ (get, codes "GET")
    ∷ (head, codes "HEAD")
    ∷ (post, codes "POST")
    ∷ (put, codes "PUT")
    ∷ (connect, codes "CONNECT")
    ∷ (options, codes "OPTIONS")
    ∷ (trace, codes "TRACE")
    ∷ (copy, codes "COPY")
    ∷ (lock, codes "LOCK")
    ∷ (mkcol, codes "MKCOL")
    ∷ (move, codes "MOVE")
    ∷ (propfind, codes "PROPFIND")
    ∷ (proppatch, codes "PROPPATCH")
    ∷ (search, codes "SEARCH")
    ∷ (unlock, codes "UNLOCK")
    ∷ (bind, codes "BIND")
    ∷ (rebind, codes "REBIND")
    ∷ (unbind, codes "UNBIND")
    ∷ (acl, codes "ACL")
    ∷ (report, codes "REPORT")
    ∷ (mkactivity, codes "MKACTIVITY")
    ∷ (checkout, codes "CHECKOUT")
    ∷ (merge, codes "MERGE")
    ∷ (msearch, codes "M-SEARCH")
    ∷ (notify, codes "NOTIFY")
    ∷ (subscribe, codes "SUBSCRIBE")
    ∷ (unsubscribe, codes "UNSUBSCRIBE")
    ∷ (patch, codes "PATCH")
    ∷ (purge, codes "PURGE")
    ∷ (mkcalendar, codes "MKCALENDAR")
    ∷ (link, codes "LINK")
    ∷ (unlink, codes "UNLINK")
    ∷ (source, codes "SOURCE")
    ∷ []

-- `strncmp(a, b, strlen(a)) == 0`.
abbrev pub starts : Chars → Chars → Bool
starts [] b = true
starts (c ∷ a) [] = false
starts (c ∷ a) (d ∷ b) = c == d && starts a b

-- The chains of tests of `StringToHttpMethod` and `CharsToHttpMethod`.
unfoldable pub first_method : (Chars → Bool) → List (HttpMethod × Chars) → HttpMethod
first_method test [] = invalid_method
first_method test ((m, str) ∷ rest) = if test str then m else first_method test rest

unfoldable pub string_to_http_method : Chars → HttpMethod
unfolding first_method method_map
string_to_http_method s = first_method (λ str. equal_chars str s) method_map

unfoldable pub chars_to_http_method : Chars → HttpMethod
unfolding first_method method_map
chars_to_http_method s = first_method (λ str. starts str s) method_map

-- `"<unknown>"`.
abbrev pub unknown : Chars
unknown = codes "<unknown>"

-- `HttpMethodToString`: an entry of `s_method_string`, where there is one.
unfoldable pub http_method_to_string : HttpMethod → Chars
unfolding method_map number
http_method_to_string m = elim (get_elem? method_map (number m)) [
  | none ↦ unknown
  | some entry ↦ entry.1
]
