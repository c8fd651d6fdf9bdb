-- ===== src/Http/Tests.antt =====
-- Runs of civan/http/http.cc.
mod Messages
use civan.Common.{codes, ◌≡◌, ◌≢◌, refl, ◌++◌}
use civan.Http.Method.{
  get, invalid_method, string_to_http_method, chars_to_http_method, http_method_to_string,
}
use civan.Http.Names.{
  chars_to_http_method-http_method_to_string, string_to_http_method-http_method_to_string,
}
use civan.Http.Status.{http_status_to_string, status_case, status_map}

ok_is_200 : http_status_to_string 200 ≡ codes "OK"
unfolding http_status_to_string status_case status_map
ok_is_200 = refl

chars_to_http_method-http_method_to_string_run :
    chars_to_http_method (http_method_to_string get ++ codes " /") ≡ get
chars_to_http_method-http_method_to_string_run =
    chars_to_http_method-http_method_to_string get (codes " /") (λ e. cc)

string_to_http_method-http_method_to_string_run :
    (get ≢ invalid_method → string_to_http_method (http_method_to_string get) ≡ get)
    × (string_to_http_method (codes "GET") ≢ invalid_method
        → http_method_to_string (string_to_http_method (codes "GET")) ≡ codes "GET")
string_to_http_method-http_method_to_string_run =
    string_to_http_method-http_method_to_string get (codes "GET")
