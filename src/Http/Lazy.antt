-- ===== src/Http/Lazy.antt =====
-- The maps of an `HttpRequest` (civan/http/http.cc) across the parsing that is put off until the first
-- question.
use civan.Common.{
  Chars, codes, List, [], ◌∷◌, none, some, if◌then◌else◌, ◌≡◌, refl, ◌∙◌, ◌++◌, Bool-cases, inl,
  inr,
}
use civan.Common.SortedMap.{Sorted}
use civan.Http.CaseInsensitive.{case_insensitive_less}
use civan.Util.Trim.{trim, blanks}
use civan.Http.Params.{MapType, parse_param}
use civan.Http.Scan.{scan, insert_all, parse_param-scan}
use civan.Http.Request.{
  HttpRequest, value_or, find_case, get_header, get_param, set_param, del_param, get_cookie,
  set_cookie, init_query_param, init_body_param, init_cookies, is_form,
}
use civan.Http.Lookup.{same_key, if_apart, insert_all-append, find_assigned, find_erased}

-- The parameters of the query and of the body that have still to be parsed.
unfoldable pub pending_query : HttpRequest → List (Chars × Chars)
unfolding scan
pending_query r = if r.parser_param_flag.query then [] else scan b'&' none [] r.query

unfoldable pub pending_body : HttpRequest → List (Chars × Chars)
unfolding scan is_form
pending_body r =
    if r.parser_param_flag.body then [] else if is_form r then scan b'&' none [] r.body else []

unfoldable pub pending : HttpRequest → List (Chars × Chars)
unfolding pending_query pending_body
pending r = pending_query r ++ pending_body r

init_query_params :
    (r : HttpRequest)
    → (init_query_param r).params ≡ insert_all (λ key. key) (pending_query r) r.params
unfolding init_query_param pending_query insert_all
init_query_params r = elim (Bool-cases r.parser_param_flag.query) [
  | inl e ↦ rw (init_query_param, pending_query, insert_all, e) refl
  | inr e ↦
      rw (init_query_param, pending_query, e) (parse_param-scan (λ key. key) b'&' r.query r.params)
]

init_body_params :
    (r : HttpRequest)
    → (init_body_param r).params ≡ insert_all (λ key. key) (pending_body r) r.params
unfolding init_body_param pending_body insert_all
init_body_params r = elim (Bool-cases r.parser_param_flag.body) [
  | inl e ↦ rw (init_body_param, pending_body, insert_all, e) refl
  | inr e ↦ elim (Bool-cases (is_form r)) [
    | inl k ↦
        rw (init_body_param, pending_body, e, k)
          (parse_param-scan (λ key. key) b'&' r.body r.params)
    | inr k ↦ rw (init_body_param, pending_body, insert_all, e, k) refl
  ]
]

pending_body_query : (r : HttpRequest) → pending_body (init_query_param r) ≡ pending_body r
unfolding init_query_param pending_body
pending_body_query r = elim (Bool-cases r.parser_param_flag.query) [
  | inl e ↦ rw (init_query_param, e) refl
  | inr e ↦ rw (init_query_param, e) refl
]

pub init_params :
    (r : HttpRequest)
    → (init_body_param (init_query_param r)).params ≡ insert_all (λ key. key) (pending r) r.params
unfolding pending
init_params r =
    init_body_params (init_query_param r)
    ∙ rw
        (
          pending_body_query r,
          init_query_params r,
          insert_all-append (λ key. key) (pending_query r) (pending_body r) r.params,
        )
        refl

-- `getParam` after `setParam` gives the new value for each spelling of the key, and what it would have
-- given for all other keys, whether or not the query and the body are parsed yet.
pub get_param-set_param :
    (j k val def : Chars) (r : HttpRequest)
    → (get_param j def (set_param k val r)).0
      ≡ (if same_key k j then val else (get_param j def r).0)
unfolding get_param pending pending_query pending_body is_form set_param get_header
get_param-set_param j k val def r =
    rw
      (
        init_params (set_param k val r),
        init_params r,
        find_assigned (λ key. key) (pending r) j k val r.params,
      )
      (if_apart (same_key k j) (λ found. value_or found def) (some val)
        (find_case j (insert_all (λ key. key) (pending r) r.params)))

-- `getParam` after `delParam` of its key gives what the query and the body have that are still to be
-- parsed, and the default if they have nothing; other keys keep their values.
pub get_param-del_param :
    (j k def : Chars) (r : HttpRequest)
    → Sorted case_insensitive_less r.params
    → (get_param j def (del_param k r)).0 ≡ (
        if same_key k j
        then value_or (find_case j (insert_all (λ key. key) (pending r) [])) def
        else (get_param j def r).0)
unfolding get_param pending pending_query pending_body is_form del_param get_header
get_param-del_param j k def r s =
    rw
      (
        init_params (del_param k r),
        init_params r,
        find_erased (λ key. key) (pending r) j k r.params s,
      )
      (if_apart (same_key k j) (λ found. value_or found def)
        (find_case j (insert_all (λ key. key) (pending r) []))
        (find_case j (insert_all (λ key. key) (pending r) r.params)))

-- The cookies of the header that have still to be parsed.
unfoldable pub pending_cookies : HttpRequest → List (Chars × Chars)
unfolding scan get_header
pending_cookies r =
    if r.parser_param_flag.cookies then [] else scan b';' none [] (get_header (codes "cookie") [] r)

cookies_read :
    (trim : Chars → Chars) (cookie : Chars) (m : MapType)
    → elim cookie as (λ x. MapType) [ [] ↦ m | c ∷ rest ↦ parse_param trim b';' (c ∷ rest) m ]
      ≡ insert_all trim (scan b';' none [] cookie) m
unfolding insert_all scan
cookies_read trim [] m = refl
cookies_read trim (c ∷ rest) m = parse_param-scan trim b';' (c ∷ rest) m

pub init_cookies_params :
    (r : HttpRequest)
    → (init_cookies r).cookies ≡ insert_all (λ key. trim key blanks) (pending_cookies r) r.cookies
unfolding init_cookies pending_cookies insert_all
init_cookies_params r = elim (Bool-cases r.parser_param_flag.cookies) [
  | inl e ↦ rw (init_cookies, pending_cookies, insert_all, e) refl
  | inr e ↦
      rw (init_cookies, pending_cookies, e)
        (cookies_read (λ key. trim key blanks) (get_header (codes "cookie") [] r) r.cookies)
]

-- `getCookie` after `setCookie` gives the new value for each spelling of the key, and what it would
-- have given for all other keys, whether or not the cookies are parsed yet.
pub get_cookie-set_cookie :
    (j k val def : Chars) (r : HttpRequest)
    → (get_cookie j def (set_cookie k val r)).0
      ≡ (if same_key k j then val else (get_cookie j def r).0)
unfolding get_cookie pending_cookies set_cookie get_header
get_cookie-set_cookie j k val def r =
    rw
      (
        init_cookies_params (set_cookie k val r),
        init_cookies_params r,
        find_assigned (λ key. trim key blanks) (pending_cookies r) j k val r.cookies,
      )
      (if_apart (same_key k j) (λ found. value_or found def) (some val)
        (find_case j (insert_all (λ key. trim key blanks) (pending_cookies r) r.cookies)))
