-- ===== src/Http/Fresh.antt =====
-- What a request of civan/http/http.cc answers for the query and the cookies that it came with.
use civan.Common.{
  Chars, codes, ℕ, List, [], ◌∷◌, Option, none, some, Bool, true, false, if◌then◌else◌, ◌≡◌, refl,
  sym, ◌∙◌,
}
use civan.Common.SortedMap.{find, assign, insert, found_or, find-insert}
use civan.Http.CaseInsensitive.{case_insensitive_less}
use civan.Util.Trim.{trim, blanks}
use civan.Http.Params.{MapType}
use civan.Http.Scan.{insert_all}
use civan.Http.Query.{
  format_params, insert_params, AreParams, insert_all-scan, parse_param-format_params,
}
use civan.Util.Safe.{is_safe}
use civan.Util.Url.{char_is_unreserved}
use civan.Http.Request.{
  new_request, value_or, find_case, get_header, set_header, get_param, get_cookie, is_form,
}
use civan.Http.Lookup.{order, same_key}
use civan.Http.Lazy.{pending_cookies, init_cookies_params}

-- The value of the first parameter whose key, trimmed, is `j` in some spelling.
unfoldable pub first_value : (Chars → Chars) → Chars → List (Chars × Chars) → Option Chars
first_value trim j [] = none
first_value trim j ((key, val) ∷ params) =
    if same_key (trim key) j then some val else first_value trim j params

or_else : Option Chars → Option Chars → Option Chars
or_else (some a) b = some a
or_else none b = b

found_first :
    (x y : Option Chars) (same : Bool) (v : Chars)
    → or_else (found_or x same v) y ≡ or_else x (if same then some v else y)
unfolding or_else
found_first (some w) y same v = refl
found_first none y true v = refl
found_first none y false v = refl

or_else-none : (x : Option Chars) → or_else x none ≡ x
unfolding or_else
or_else-none none = refl
or_else-none (some a) = refl

ampersand : is_safe b'&' ≡ false
unfolding is_safe char_is_unreserved
ampersand = refl

semicolon : is_safe b';' ≡ false
unfolding is_safe char_is_unreserved
semicolon = refl

-- A value that is there stays, and the first one that comes is kept.
find_insert_params :
    (trim : Chars → Chars) (j : Chars) (params : List (Chars × Chars)) (m : MapType)
    → find_case j (insert_params trim params m)
      ≡ or_else (find_case j m) (first_value trim j params)
unfolding insert_params first_value
find_insert_params trim j [] m = sym (or_else-none (find_case j m))
find_insert_params trim j ((k, v) ∷ params) m =
    find_insert_params trim j params (insert case_insensitive_less (trim k) v m)
    ∙ rw (find-insert case_insensitive_less order j (trim k) v m)
        (found_first (find_case j m) (first_value trim j params) (same_key (trim k) j) v)

-- A new request with a query of parameters gives, for a key, the value of the first of them with that
-- key in some spelling, as it was before `UrlEncode`, and the default if there is none.
pub get_param-format_params :
    (j def : Chars) (params : List (Chars × Chars)) (version : ℕ) (close : Bool)
    → AreParams params
    → (get_param j def (record (new_request version close) { query = format_params b'&' params })).0
      ≡ value_or (first_value (λ key. key) j params) def
unfolding get_param new_request is_form get_header find or_else
get_param-format_params j def params version close p =
    rw
      (
        parse_param-format_params (λ key. key) b'&' params [] ampersand p,
        find_insert_params (λ key. key) j params [],
      )
      refl

-- A new request with a `Cookie` header of cookies gives, for a key, the value of the first of them with
-- that key when it is trimmed, as it was before `UrlEncode`, and the default if there is none.
pub get_cookie-format_params :
    (j def : Chars) (params : List (Chars × Chars)) (version : ℕ) (close : Bool)
    → AreParams params
    → (get_cookie j def
        (set_header (codes "Cookie") (format_params b';' params) (new_request version close))).0
      ≡ value_or (first_value (λ key. trim key blanks) j params) def
unfolding get_cookie pending_cookies new_request get_header set_header find or_else assign
    case_insensitive_less insert_all first_value
get_cookie-format_params j def params version close p =
    rw
      (
        init_cookies_params
            (set_header (codes "Cookie") (format_params b';' params) (new_request version close)),
        insert_all-scan (λ key. trim key blanks) b';' params [] semicolon p,
        find_insert_params (λ key. trim key blanks) j params [],
      )
      refl
